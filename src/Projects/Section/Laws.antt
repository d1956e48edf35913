-- ===== src/Projects/Section/Laws.antt =====
-- What a section shows of its threads, and where the page goes when the open one is removed.
use fleet_agent.Base.{
  ℕ, zero, suc, ◌≤◌, String, ◌≡◌, ◌≢◌, ◌↔◌, refl, ap, true, false, not, none, some, List, [], ◌∷◌,
  length, take, keep, ◌==◌, length-take, eq_iff, eq_refl, arith, Bool-cases, inl, inr,
}
use fleet_agent.Projects.Section.{
  ListedThread, visible_threads, has_hidden, SectionState, RouteParams, click, toggle_all,
  thread_preview_count, thread_removed, refresh_threads, forget_bootstrap, navigate, project_path,
}
use fleet_agent.Threads.Route.{
  Query, pending, failed, succeeded, newest, Opening, route_view, to_thread,
}
use mathlib.Core.Option.{some-injective}

take_of_short {ℓ} : {A : Type ℓ} (n : ℕ) (xs : List A) → length xs ≤ n → take n xs ≡ xs
take_of_short zero [] h = refl
take_of_short zero (x ∷ xs) h = absurd (omega arith)
take_of_short (suc n) [] h = refl
take_of_short (suc n) (x ∷ xs) h = ap (λ l. x ∷ l) (take_of_short n xs (omega arith))

hidden-differs : (ts : List ListedThread) → has_hidden ts ≡ true → take 5 ts ≢ ts
unfolding has_hidden
hidden-differs ts h e =
    let shown = length-take 5 ts in
    let same = ap (λ (l : List ListedThread). length l) e in ground arith

shown_of_not_hidden : (ts : List ListedThread) → has_hidden ts ≡ false → take 5 ts ≡ ts
unfolding has_hidden
shown_of_not_hidden ts h = take_of_short 5 ts (ground arith)

-- A section shows five threads at most until it is asked for all; the button below them is there
-- exactly when some are left out, and one click on it shows them all.
pub visible_threads-has_hidden :
    (project : String) (ts : List ListedThread) (s : SectionState)
    → (length (visible_threads false ts) ≤ thread_preview_count)
      × ((has_hidden ts ≡ true) ↔ (visible_threads false ts ≢ ts))
      × (s.show_all ≡ false → visible_threads (click project toggle_all s).0.show_all ts ≡ ts)
unfolding visible_threads click
visible_threads-has_hidden project ts s = (
  omega (arith, length-take 5 ts),
  (
    hidden-differs ts,
    λ differs. elim (Bool-cases (has_hidden ts)) [
      | inl h ↦ h
      | inr h ↦ absurd (differs (shown_of_not_hidden ts h))
    ],
  ),
  λ e. rw e refl,
)

keep-not_first :
    (id : String) (ids : List String) → newest (succeeded (keep (λ i. not (i == id)) ids)) ≢ some id
keep-not_first id [] h = cc
keep-not_first id (i ∷ ids) h = elim (Bool-cases (i == id)) [
  | inl same ↦ keep-not_first id ids (rw same at h)
  | inr differ ↦
      let found : i ≡ id = some-injective _ _ (rw differ at h) in ground (arith, eq_iff i id)
]

leads_to_newest :
    (project thread : String) (q : Query (List String)) (b : Query (List ℕ)) (title : List ℕ)
    (o : Opening)
    → route_view project none q b title o ≡ to_thread project thread
    → newest q ≡ some thread
unfolding route_view
leads_to_newest project thread pending b title o h = ground arith
leads_to_newest project thread failed b title o h = ground arith
leads_to_newest project thread (succeeded []) b title o h = ground arith
leads_to_newest project thread (succeeded (id ∷ ids)) b title o h = cc

-- When the open thread has been removed, its bootstrap leaves the cache and the page goes to the
-- project; with the thread gone from the list, the route does not lead back to it.
pub thread_removed-leaves :
    (project thread : String) (params : RouteParams) (ids : List String) (b : Query (List ℕ))
    (title : List ℕ) (o : Opening)
    → params.thread_id ≡ some thread
    → (thread_removed project params thread
        ≡ refresh_threads project ∷ forget_bootstrap thread ∷ navigate (project_path project) ∷ [])
      × (route_view project none (succeeded (keep (λ i. not (i == thread)) ids)) b title o
          ≢ to_thread project thread)
unfolding thread_removed
thread_removed-leaves project thread params ids b title o h = (
  rw (h, thread_removed) (rw (eq_refl thread) refl),
  λ e.
      keep-not_first thread ids (
        leads_to_newest project thread (succeeded (keep (λ i. not (i == thread)) ids)) b title o e),
)
