-- ===== src/Frontend/Refresh/Reach.antt =====
-- Every order of events and of answers, as steps of the application with the reads that it awaits
-- (services/hearthdeck-frontend/src/app/refresh.rs).
use hearthdeck.Prelude.{ℕ, ◌≡◌, refl, true, false, Option, List, [], ◌∷◌, ◌++◌, Eq, arith}
use hearthdeck.Frontend.Items.{LibraryItem}
use hearthdeck.Frontend.Refresh.{
  FeedEvent, Read, read_catalog, read_collections, App, load_catalog, daemon_changed,
  dashboard_ticked, refresh_dashboard, collections_loaded, catalog_loaded,
}
use hearthdeck.Frontend.Refresh.Chain.{
  live, known, retries, live_retries, others, is_catalog, IsChained, others-IsChained,
  other-IsChained,
}
use hearthdeck.Frontend.Refresh.Grows.{
  leaves-Grows, nothing-Grows, load-Grows, daemon_changed-IsChained, dashboard_ticked-IsChained,
  refresh_dashboard-IsChained, collections_loaded-LeavesCatalog, catalog_loaded-IsChained,
}

module _ {Icon Version Rail Console : Type 0} ⦃eq : Eq Icon⦄ where
  -- A state that events and answers lead to, in any order, with the reads that it awaits. The rest of
  -- the application reads the catalog only where no retry is awaited (`loads`), may change what is not
  -- the catalog's, and takes the answers of other reads, which may lead to more of them.
  pub data Reach : App Icon Version Rail Console → List Read → Type 0 where
    start : {a : App Icon Version Rail Console} → a.retries.catalog ≡ false → Reach a []
    loads :
        {a : App Icon Version Rail Console} {flight : List Read}
        → a.retries.catalog ≡ false
        → Reach a flight
        → Reach (load_catalog 0 a).0 (flight ++ (load_catalog 0 a).1)
    changes :
        {a : App Icon Version Rail Console} {flight : List Read} (event : FeedEvent)
        → Reach a flight
        → Reach (daemon_changed event a).0 (flight ++ (daemon_changed event a).1)
    ticks :
        {a : App Icon Version Rail Console} {flight : List Read}
        → Reach a flight
        → Reach (dashboard_ticked a).0 (flight ++ (dashboard_ticked a).1)
    lands :
        {a : App Icon Version Rail Console} {flight : List Read}
        → Reach a flight
        → Reach (refresh_dashboard a).0 (flight ++ (refresh_dashboard a).1)
    catalog_answers :
        {a : App Icon Version Rail Console} (before after : List Read) (request delay : ℕ)
        (result : Option (List (LibraryItem Icon)))
        → Reach a (before ++ read_catalog request delay ∷ after)
        → Reach
            (catalog_loaded request result a).0
            ((before ++ after) ++ (catalog_loaded request result a).1)
    collections_answers :
        {a : App Icon Version Rail Console} (before after : List Read) (request delay : ℕ)
        (result : Option (List Rail))
        → Reach a (before ++ read_collections request delay ∷ after)
        → Reach
            (collections_loaded request result a).0
            ((before ++ after) ++ (collections_loaded request result a).1)
    elsewhere :
        {a b : App Icon Version Rail Console} (before after reads : List Read) (r : Read)
        → is_catalog r ≡ false
        → others reads ≡ true
        → b.catalog_request ≡ a.catalog_request
        → b.retries.catalog ≡ a.retries.catalog
        → Reach a (before ++ r ∷ after)
        → Reach b ((before ++ after) ++ reads)

  -- Whatever order events and answers come in, at most one awaited read of the catalog is the latest
  -- asked for, and none is later; just one retry of it is awaited while the flag for that is set, and
  -- none while it is not; and that retry is the latest, so that the application takes its answer.
  pub Reach-IsChained :
      {a : App Icon Version Rail Console} {flight : List Read}
      → Reach a flight
      → IsChained a.catalog_request a.retries.catalog flight
  unfolding known live retries live_retries
  Reach-IsChained (start h) = rw h (refl, omega arith, refl, refl)
  Reach-IsChained (loads {a} {flight} idle r) = load-Grows flight a idle (Reach-IsChained r)
  Reach-IsChained (changes {a} {flight} event r) =
      daemon_changed-IsChained event flight a (Reach-IsChained r)
  Reach-IsChained (ticks {a} {flight} r) = dashboard_ticked-IsChained flight a (Reach-IsChained r)
  Reach-IsChained (lands {a} {flight} r) = refresh_dashboard-IsChained flight a (Reach-IsChained r)
  Reach-IsChained (catalog_answers {a} before after request delay result r) =
      catalog_loaded-IsChained before after request delay result a (Reach-IsChained r)
  Reach-IsChained (collections_answers {a} before after request delay result r) =
      leaves-Grows (before ++ after) [] a (collections_loaded request result a)
        (collections_loaded-LeavesCatalog request result a)
        (nothing-Grows (before ++ after) a (
          other-IsChained a.catalog_request a.retries.catalog (read_collections request delay)
            before after refl (Reach-IsChained r)))
  Reach-IsChained (elsewhere {a} {b} before after reads r other more same still from) =
      let rest =
        other-IsChained a.catalog_request a.retries.catalog r before after other
          (Reach-IsChained from) in
      rw (same, still)
        (others-IsChained a.catalog_request a.retries.catalog (before ++ after) reads more rest)
