-- ===== src/ServiceLock/Moves.antt =====
-- Each move of a thread keeps the invariant.
use custom_cloudstack_ccm.Prelude.{
  ◌-◌, List, ◌∷◌, ◌++◌, sym, ◌∙◌, subst, Option-cases, inl, inr, leb, Bool-cases,
}
use mathlib.Core.Option.{some-injective}
use custom_cloudstack_ccm.Prelude.Dict.{lookup}
use custom_cloudstack_ccm.Kube.{service_key_eq}
use custom_cloudstack_ccm.ServiceLock.{ServiceLock}
use custom_cloudstack_ccm.ServiceLock.System.{
  Pc, idle, waiting, holding, Move, registers, acquires, unlocks,
}
use custom_cloudstack_ccm.ServiceLock.Invariant.{Inv}
use custom_cloudstack_ccm.ServiceLock.Locking.{
  register_new, register_old, acquire_lem, register_new-Inv, register_old-Inv, acquire-Inv,
}
use custom_cloudstack_ccm.ServiceLock.Unlocking.{unlock_lem, kept-Inv, dropped-Inv}

-- A thread's move keeps the invariant, whatever the other threads are doing.
pub Move-Inv :
    {l l' : ServiceLock} {p p' : Pc} (xs ys : List Pc)
    → Move l l' p p'
    → Inv l (xs ++ p ∷ ys)
    → Inv l' (xs ++ p' ∷ ys)
Move-Inv {l} {l'} xs ys (registers k d e) inv = elim (Option-cases (lookup k l.in_use)) [
  | inl new ↦
      let same = sym (register_new l k new) ∙ e in
      subst (λ r. Inv r.0 (xs ++ waiting k r.1 ∷ ys)) same (register_new-Inv l xs ys k inv new)
  | inr (c, old) ↦
      let same = sym (register_old l k c old) ∙ e in
      subst (λ r. Inv r.0 (xs ++ waiting k r.1 ∷ ys)) same (register_old-Inv l xs ys k inv c old)
]
Move-Inv {l} {l'} xs ys (acquires k d e) inv =
    let (free, same) = acquire_lem l d e in
    subst (λ r. Inv r (xs ++ holding k d ∷ ys)) same (acquire-Inv l xs ys k d inv free)
Move-Inv {l} {l'} xs ys (unlocks k d e) inv =
    let same = some-injective _ _ (sym (unlock_lem l xs ys k d inv) ∙ e) in
    subst (λ r. Inv r (xs ++ idle ∷ ys)) same
      (elim (Bool-cases (leb ((l.heap d).counter - 1) 0)) [
        | inl last ↦ dropped-Inv l xs ys k d inv last
        | inr more ↦ kept-Inv l xs ys k d inv more
      ])
