-- ===== src/Input/Broker/Grab.antt =====
-- Grabbing every controller is all or nothing (services/hearthdeck-input/src/broker.rs, `grab_all`).
use hearthdeck.Prelude.{
  ◌≡◌, refl, subst, ◌∙◌, Bool, true, false, Option, none, some, some-injective, inl, inr, List, [],
  ◌∷◌, ◌++◌, Bool-cases, >>=-eq-some,
}
use hearthdeck.Input.Broker.{
  Platform, Pad, Grabbed, fatal, denied, granted, ungrab_all, rolled_back, grab_from, grab_all,
}

module _ (w : Platform) where
  -- Whether each pad's device is grabbed, or is not.
  abbrev pub AllAre : Bool → List (Pad w) → Type 0
  AllAre v [] = Unit {0}
  AllAre v (p ∷ pads) = (w.is_grabbed p.device ≡ v) × AllAre v pads

  AllAre-append :
      (v : Bool) (xs ys : List (Pad w)) → AllAre v xs → AllAre v ys → AllAre v (xs ++ ys)
  AllAre-append v [] ys h k = k
  AllAre-append v (x ∷ xs) ys h k = (h.0, AllAre-append v xs ys h.1 k)

  -- Released pads are not grabbed.
  pub ungrab_all-free :
      (pads freed : List (Pad w)) → ungrab_all w pads ≡ some freed → AllAre false freed
  unfolding ungrab_all
  ungrab_all-free [] freed h = subst (AllAre false) (some-injective _ _ h) tt
  ungrab_all-free (p ∷ pads) freed h = elim (Bool-cases (w.ungrab p.device).1) [
    | inl e ↦
        let (rest, e', h') = >>=-eq-some (ungrab_all w pads) _ (rw e at h) in
        subst (AllAre false) (some-injective _ _ h')
          (w.ungrab_done p.device e, ungrab_all-free pads rest e')
    | inr e ↦ absurd (none_ne (rw e at h))
  ]
    where
      none_ne : none ≡ some freed → ⊥
      none_ne e = cc

  abbrev pub AllOrNothing : Grabbed w → Type 0
  AllOrNothing fatal = Unit {0}
  AllOrNothing (denied pads) = AllAre false pads
  AllOrNothing (granted pads) = AllAre true pads

  rolled_back-AllOrNothing :
      (r : Option (List (Pad w))) (rest : List (Pad w))
      → ((freed : List (Pad w)) → r ≡ some freed → AllAre false freed)
      → AllAre false rest
      → AllOrNothing (rolled_back w r rest)
  rolled_back-AllOrNothing none rest h k = tt
  rolled_back-AllOrNothing (some freed) rest h k = AllAre-append false freed rest (h freed refl) k

  grab_from-AllOrNothing :
      (before pads : List (Pad w))
      → AllAre true before
      → AllAre false pads
      → AllOrNothing (grab_from w before pads)
  unfolding grab_from
  grab_from-AllOrNothing before [] h k = h
  grab_from-AllOrNothing before (p ∷ pads) h k = elim (Bool-cases (w.grab p.device).1) [
    | inl e ↦ rw e (
        grab_from-AllOrNothing (before ++ _ ∷ []) pads
          (AllAre-append true before (_ ∷ []) h (w.grab_taken p.device e, tt)) k.1)
    | inr e ↦ rw e (
        rolled_back-AllOrNothing (ungrab_all w before) (_ ∷ pads) (ungrab_all-free before)
          (w.grab_refused p.device e ∙ k.0, k.1))
  ]

  -- Starting from pads of which none is grabbed, a grab that is denied leaves none grabbed, and one
  -- that is granted leaves every pad grabbed.
  pub grab_all-AllOrNothing :
      (pads : List (Pad w)) → AllAre false pads → AllOrNothing (grab_all w pads)
  unfolding grab_all
  grab_all-AllOrNothing pads h = grab_from-AllOrNothing [] pads tt h
