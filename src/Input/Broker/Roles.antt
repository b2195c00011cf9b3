-- ===== src/Input/Broker/Roles.antt =====
-- Disconnecting the clients of a role leaves none of it
-- (services/hearthdeck-input/src/broker.rs, `connect`).
use hearthdeck.Prelude.{
  ℕ, ◌≡◌, refl, sym, ◌∙◌, subst, inl, inr, Bool, true, false, none, some, List, [], ◌∷◌, arith,
  Bool-cases, After, After-then, ◌==◌, if◌then◌else◌, contains, nat_eq,
}
use hearthdeck.Input.Protocol.{Role, same_role}
use hearthdeck.Input.Broker.{
  Platform, Broker, Client, find_id, find_role, retain_not, ids_of, disconnect_all, disconnect,
}
use hearthdeck.Input.Broker.Capture.{IsOverlay, IsGuarded, disconnect-IsGuarded}

module _ (w : Platform) where
  -- Every client of the role has its id in the list.
  abbrev pub Covered : Role → List ℕ → List (Client w) → Type 0
  Covered role ids [] = Unit {0}
  Covered role ids (c ∷ clients) =
      (same_role c.hello.role role ≡ true → contains c.id ids ≡ true) × Covered role ids clients

  Covered-cons :
      (role : Role) (j : ℕ) (ids : List ℕ) (clients : List (Client w))
      → Covered role ids clients
      → Covered role (j ∷ ids) clients
  unfolding contains
  Covered-cons role j ids [] h = tt
  Covered-cons role j ids (c ∷ clients) h =
      (λ e. ground (arith, h.0 e), Covered-cons role j ids clients h.1)

  ids_of-cons :
      (role : Role) (c : Client w) (clients : List (Client w))
      → ids_of w role (c ∷ clients) ≡ (
          if same_role c.hello.role role
          then c.id ∷ ids_of w role clients
          else ids_of w role clients)
  unfolding ids_of
  ids_of-cons role c clients = refl

  contains_head : (n : ℕ) (ns : List ℕ) → contains n (n ∷ ns) ≡ true
  unfolding contains
  contains_head n ns = ground arith

  pub Covered-ids_of :
      (role : Role) (clients : List (Client w)) → Covered role (ids_of w role clients) clients
  Covered-ids_of role [] = tt
  Covered-ids_of role (c ∷ clients) = elim (Bool-cases (same_role c.hello.role role)) [
    | inl e ↦
        subst (λ ids. Covered role ids (c ∷ clients)) (sym (ids_of-cons role c clients ∙ rw e refl))
          (
            λ _. contains_head c.id (ids_of w role clients),
            Covered-cons role c.id (ids_of w role clients) clients (Covered-ids_of role clients),
          )
    | inr e ↦
        subst (λ ids. Covered role ids (c ∷ clients)) (sym (ids_of-cons role c clients ∙ rw e refl))
          (λ h. cc, Covered-ids_of role clients)
  ]

  Covered-retain_not :
      (role : Role) (j : ℕ) (ids : List ℕ) (clients : List (Client w))
      → Covered role (j ∷ ids) clients
      → Covered role ids (retain_not w j clients)
  unfolding retain_not contains
  Covered-retain_not role j ids [] h = tt
  Covered-retain_not role j ids (c ∷ clients) h = elim (Bool-cases (c.id == j)) [
    | inl e ↦ rw e (Covered-retain_not role j ids clients h.1)
    | inr e ↦ rw e (λ r. ground (arith, h.0 r), Covered-retain_not role j ids clients h.1)
  ]

  Covered-nil :
      (role : Role) (clients : List (Client w))
      → Covered role [] clients
      → find_role w role clients ≡ none
  unfolding find_role contains
  Covered-nil role [] h = refl
  Covered-nil role (c ∷ clients) h = ground (arith, h.0, Covered-nil role clients h.1)

  retain_not-fresh :
      (id j : ℕ) (clients : List (Client w))
      → find_id w id clients ≡ none
      → find_id w id (retain_not w j clients) ≡ none
  unfolding find_id retain_not
  retain_not-fresh id j [] h = refl
  retain_not-fresh id j (c ∷ clients) h = ground (arith, retain_not-fresh id j clients)

  -- What is left when the clients of the new one's role are gone.
  abbrev pub Cleared : Role → ℕ → Broker w → Type 0
  Cleared role id b =
      IsGuarded w b × (find_role w role b.clients ≡ none) × (find_id w id b.clients ≡ none)

  pub disconnect_all-Cleared :
      (role : Role) (id : ℕ) (b : Broker w) (ids : List ℕ)
      → IsGuarded w b
      → Covered role ids b.clients
      → find_id w id b.clients ≡ none
      → After (Cleared role id) (disconnect_all w b ids)
  unfolding disconnect_all
  disconnect_all-Cleared role id b [] g c f = (g, Covered-nil role b.clients c, f)
  disconnect_all-Cleared role id b (j ∷ ids) g c f =
      After-then (λ b'. IsGuarded w b' × (b'.clients ≡ retain_not w j b.clients)) (Cleared role id)
        (disconnect w b j) _ (disconnect-IsGuarded w b j g)
        λ b' p.
          disconnect_all-Cleared role id b' ids p.0
            (rw p.1 (Covered-retain_not role j ids b.clients c))
            (rw p.1 (retain_not-fresh id j b.clients f))

  pub not_overlay :
      (id : ℕ) (clients : List (Client w))
      → find_role w Role.overlay clients ≡ none
      → ¬ IsOverlay w (find_id w id clients)
  unfolding find_role find_id
  not_overlay id [] n h = h
  not_overlay id (c ∷ clients) n h = elim (Bool-cases (same_role c.hello.role Role.overlay)) [
    | inl e ↦ absurd (some_ne (rw e at n))
    | inr e ↦ elim (Bool-cases (c.id == id)) [
      | inl e' ↦ absurd (true_ne (sym e ∙ (rw e' at h)))
      | inr e' ↦ not_overlay id clients (rw e at n) (rw e' at h)
    ]
  ]
    where
      some_ne : some c ≡ none → ⊥
      some_ne q = cc

      true_ne : ◌≡◌ {A = Bool} false true → ⊥
      true_ne q = cc
