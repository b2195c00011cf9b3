-- ===== src/Frontend/Refresh/Grows.antt =====
-- What each operation does to the awaited reads of the catalog
-- (services/hearthdeck-frontend/src/app/refresh.rs).
use hearthdeck.Prelude.{
  ℕ, ◌+◌, ◌≡◌, inl, inr, refl, sym, ap, subst, Bool, true, false, not, ◌&&◌, if◌then◌else◌, ◌==◌,
  Bool-cases, Option, none, some, List, [], ◌∷◌, ◌++◌, Eq,
}
use hearthdeck.Frontend.Items.{LibraryItem}
use hearthdeck.Frontend.Refresh.{
  FeedEvent, Read, read_catalog, App, load_catalog, load_collections_after, load_consoles_after,
  reload_consoles, and_if, is_resumed, stale_after, stale_tick, needs_consoles, daemon_changed,
  dashboard_ticked, refresh_dashboard, collections_loaded, catalog_loaded,
}
use hearthdeck.Frontend.Refresh.Chain.{
  others, IsChained, others-IsChained, begin-IsChained, remove-IsChained,
}

append_assoc : (xs ys zs : List Read) → (xs ++ ys) ++ zs ≡ xs ++ (ys ++ zs)
append_assoc [] ys zs = refl
append_assoc (x ∷ xs) ys zs = ap (λ (l : List Read). x ∷ l) (append_assoc xs ys zs)

append_nil : (xs : List Read) → xs ++ [] ≡ xs
append_nil [] = refl
append_nil (x ∷ xs) = ap (λ (l : List Read). x ∷ l) (append_nil xs)

module _ {Icon Version Rail Console : Type 0} where
  -- The invariant after an operation, with the reads that it makes.
  abbrev pub Grows : List Read → App Icon Version Rail Console × List Read → Type 0
  Grows flight (a, reads) = IsChained a.catalog_request a.retries.catalog (flight ++ reads)

  -- A read of other data, which leaves the catalog's chain alone.
  abbrev pub LeavesCatalog :
      App Icon Version Rail Console → App Icon Version Rail Console × List Read → Type 0
  LeavesCatalog a (b, reads) =
      (b.catalog_request ≡ a.catalog_request)
      × (b.retries.catalog ≡ a.retries.catalog)
      × (others reads ≡ true)

  pub leaves-Grows :
      (flight made : List Read) (a : App Icon Version Rail Console)
      (p : App Icon Version Rail Console × List Read)
      → LeavesCatalog a p
      → Grows flight (a, made)
      → Grows flight (p.0, made ++ p.1)
  leaves-Grows flight made a (b, reads) (same, still, other) g =
      let longer : IsChained a.catalog_request a.retries.catalog (flight ++ (made ++ reads)) =
        subst (IsChained a.catalog_request a.retries.catalog) (append_assoc flight made reads)
          (others-IsChained a.catalog_request a.retries.catalog (flight ++ made) reads other g) in
      rw (same, still) longer

  and_if-Grows :
      (c : Bool) (load : App Icon Version Rail Console → App Icon Version Rail Console × List Read)
      (flight : List Read) (p : App Icon Version Rail Console × List Read)
      → LeavesCatalog p.0 (load p.0)
      → Grows flight p
      → Grows flight (and_if c load p)
  and_if-Grows true load flight (a, made) l g = leaves-Grows flight made a (load a) l g
  and_if-Grows false load flight p l g = g

  rails-LeavesCatalog :
      (delay : ℕ) (a : App Icon Version Rail Console)
      → LeavesCatalog a (load_collections_after delay a)
  unfolding others
  rails-LeavesCatalog delay a = (refl, refl, refl)

  consoles-LeavesCatalog :
      (delay : ℕ) (a : App Icon Version Rail Console)
      → LeavesCatalog a (load_consoles_after delay a)
  unfolding others
  consoles-LeavesCatalog delay a = (refl, refl, refl)

  reload-LeavesCatalog : (a : App Icon Version Rail Console) → LeavesCatalog a (reload_consoles a)
  unfolding others
  reload-LeavesCatalog a = (refl, refl, refl)

  pub nothing-Grows :
      (flight : List Read) (a : App Icon Version Rail Console)
      → IsChained a.catalog_request a.retries.catalog flight
      → Grows flight (a, [])
  nothing-Grows flight a c =
      subst (IsChained a.catalog_request a.retries.catalog) (sym (append_nil flight)) c

  -- A read of the catalog at once, where no chain of retries is awaited.
  pub load-Grows :
      (flight : List Read) (a : App Icon Version Rail Console)
      → a.retries.catalog ≡ false
      → IsChained a.catalog_request a.retries.catalog flight
      → Grows flight (load_catalog 0 a)
  load-Grows flight a idle c =
      let still : IsChained a.catalog_request false flight =
        subst (λ r. IsChained a.catalog_request r flight) idle c in
      subst
        (λ r.
          IsChained (a.catalog_request + 1) r
            (flight ++ read_catalog (a.catalog_request + 1) 0 ∷ []))
        (sym idle) (begin-IsChained a.catalog_request 0 flight still)

  catalog-Grows :
      (stale : Bool) (flight : List Read) (a : App Icon Version Rail Console)
      → IsChained a.catalog_request a.retries.catalog flight
      → Grows flight (and_if (stale && not a.retries.catalog) (load_catalog 0) (a, []))
  catalog-Grows false flight a c = nothing-Grows flight a c
  catalog-Grows true flight a c = elim (Bool-cases a.retries.catalog) [
    | inl q ↦
        rw q
          (subst (λ r. IsChained a.catalog_request r (flight ++ [])) q (nothing-Grows flight a c))
    | inr q ↦ rw q (
        subst
          (λ r.
            IsChained (a.catalog_request + 1) r
              (flight ++ read_catalog (a.catalog_request + 1) 0 ∷ []))
          q (load-Grows flight a q c))
  ]

  -- An event of the daemon keeps the chain.
  pub daemon_changed-IsChained :
      (event : FeedEvent) (flight : List Read) (a : App Icon Version Rail Console)
      → IsChained a.catalog_request a.retries.catalog flight
      → Grows flight (daemon_changed event a)
  unfolding daemon_changed others
  daemon_changed-IsChained event flight a c =
      let stale = stale_after event in
      let first = and_if (stale.catalog && not a.retries.catalog) (load_catalog 0) (a, []) in
      let g1 = catalog-Grows stale.catalog flight a c in
      let second =
        and_if (stale.collections && not a.retries.collections) (load_collections_after 0) first in
      let g2 =
        and_if-Grows (stale.collections && not a.retries.collections) (load_collections_after 0)
          flight first (rails-LeavesCatalog 0 first.0) g1 in
      let third =
        if is_resumed event
        then and_if true reload_consoles second
        else and_if (stale.missing_consoles && needs_consoles a) (load_consoles_after 0) second in
      let g3 : Grows flight third = elim (Bool-cases (is_resumed event)) [
        | inl q ↦
            rw q
              (and_if-Grows true reload_consoles flight second (reload-LeavesCatalog second.0) g2)
        | inr q ↦ rw q (
            and_if-Grows (stale.missing_consoles && needs_consoles a) (load_consoles_after 0) flight
              second (consoles-LeavesCatalog 0 second.0) g2)
      ] in
      and_if-Grows stale.categorization _ flight third (refl, refl, refl) g3

  pub dashboard_ticked-IsChained :
      (flight : List Read) (a : App Icon Version Rail Console)
      → IsChained a.catalog_request a.retries.catalog flight
      → Grows flight (dashboard_ticked a)
  unfolding dashboard_ticked
  dashboard_ticked-IsChained flight a c =
      and_if-Grows ((stale_tick a.page).collections && not a.retries.collections)
        (load_collections_after 0) flight (a, []) (rails-LeavesCatalog 0 a)
        (nothing-Grows flight a c)

  pub refresh_dashboard-IsChained :
      (flight : List Read) (a : App Icon Version Rail Console)
      → IsChained a.catalog_request a.retries.catalog flight
      → Grows flight (refresh_dashboard a)
  unfolding refresh_dashboard
  refresh_dashboard-IsChained flight a c =
      let rails = and_if (not a.retries.collections) (load_collections_after 0) (a, []) in
      and_if-Grows (needs_consoles a) (load_consoles_after 0) flight rails
        (consoles-LeavesCatalog 0 rails.0)
        (and_if-Grows (not a.retries.collections) (load_collections_after 0) flight (a, [])
          (rails-LeavesCatalog 0 a) (nothing-Grows flight a c))

  pub collections_loaded-LeavesCatalog :
      (request : ℕ) (result : Option (List Rail)) (a : App Icon Version Rail Console)
      → LeavesCatalog a (collections_loaded request result a)
  unfolding collections_loaded others
  collections_loaded-LeavesCatalog request none a =
      elim (Bool-cases (request == a.collections_request)) [
        | inl q ↦ rw q (refl, refl, refl)
        | inr q ↦ rw q (refl, refl, refl)
      ]
  collections_loaded-LeavesCatalog request (some rails) a =
      elim (Bool-cases (request == a.collections_request)) [
        | inl q ↦ rw q (refl, refl, refl)
        | inr q ↦ rw q (refl, refl, refl)
      ]

module _ {Icon Version Rail Console : Type 0} ⦃eq : Eq Icon⦄ where
  -- An answer to a read of the catalog, which may be any of the awaited ones, keeps the chain.
  pub catalog_loaded-IsChained :
      (before after : List Read) (request delay : ℕ) (result : Option (List (LibraryItem Icon)))
      (a : App Icon Version Rail Console)
      → IsChained a.catalog_request a.retries.catalog (before ++ read_catalog request delay ∷ after)
      → Grows (before ++ after) (catalog_loaded request result a)
  unfolding catalog_loaded
  catalog_loaded-IsChained before after request delay none a c =
      let rest =
        remove-IsChained a.catalog_request a.retries.catalog (read_catalog request delay) before
          after c in
      elim (Bool-cases (request == a.catalog_request)) [
        | inl q ↦ rw q (begin-IsChained a.catalog_request 10 (before ++ after) (rest.1 q))
        | inr q ↦ rw q (nothing-Grows (before ++ after) a (rest.0 q))
      ]
  catalog_loaded-IsChained before after request delay (some entries) a c =
      let rest =
        remove-IsChained a.catalog_request a.retries.catalog (read_catalog request delay) before
          after c in
      elim (Bool-cases (request == a.catalog_request)) [
        | inl q ↦ rw q (
            nothing-Grows (before ++ after)
              (record a { retries = record a.retries { catalog = false } }) (rest.1 q))
        | inr q ↦ rw q (nothing-Grows (before ++ after) a (rest.0 q))
      ]
