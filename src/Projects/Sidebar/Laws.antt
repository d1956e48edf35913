-- ===== src/Projects/Sidebar/Laws.antt =====
-- Where the root page leads, and what the route there shows.
use fleet_agent.Base.{
  ℕ, String, ◌≡◌, refl, none, some, List, [], ◌∷◌, eq_refl, ◌⊎◌, inl, inr, if◌then◌else◌,
}
use fleet_agent.Threads.Route.{
  Query, pending, failed, succeeded, Opening, workspace, loading, cannot_start, route_view,
}
use fleet_agent.Projects.Section.{project_path, thread_path}
use fleet_agent.Projects.Sidebar.{Project, Boot, to, loading_threads, bootstrap_view}

-- Where the root page leads, for the threads of the first project.
abbrev pub LandsWith :
    Boot → String → Query (List String) → List ℕ → List ℕ → Query (List ℕ) → Opening → Type 0
LandsWith boot project threads restored title bootstrap o =
    (boot ≡ loading_threads)
    ⊎ (((thread : String) × (boot ≡ to (thread_path project thread))
          × (route_view project (some thread) threads (succeeded restored) title o
              ≡ workspace (some thread) title))
        ⊎ ((boot ≡ to (project_path project))
            × (route_view project none threads bootstrap title o
                ≡ (if o.is_error then cannot_start else loading))))

entry_lands :
    (p : Project) (ps : List Project) (threads : String → Query (List String))
    (q : Query (List String)) (restored title : List ℕ) (bootstrap : Query (List ℕ)) (o : Opening)
    → threads p.id ≡ q
    → LandsWith (bootstrap_view (succeeded (p ∷ ps)) threads) p.id q restored title bootstrap o
unfolding bootstrap_view route_view
entry_lands p ps threads pending restored title bootstrap o h = inl (rw (h, bootstrap_view) refl)
entry_lands p ps threads failed restored title bootstrap o h =
    inr (inr (rw (h, bootstrap_view) refl, refl))
entry_lands p ps threads (succeeded []) restored title bootstrap o h =
    inr (inr (rw (h, bootstrap_view) refl, refl))
entry_lands p ps threads (succeeded (t ∷ ts)) restored title bootstrap o h =
    inr (inl (t, rw (h, bootstrap_view) refl, rw (eq_refl t) refl))

-- With projects listed, the root page waits for the threads of the first project, or leads to its
-- newest thread, which the route shows once it is restored and does not send away, or, if it has no
-- thread or they cannot be listed, to the project, where the route starts a conversation or says that
-- it cannot.
bootstrap_view-lands :
    (p : Project) (ps : List Project) (threads : String → Query (List String))
    (restored title : List ℕ) (bootstrap : Query (List ℕ)) (o : Opening)
    → LandsWith
        (bootstrap_view (succeeded (p ∷ ps)) threads)
        p.id
        (threads p.id)
        restored
        title
        bootstrap
        o
bootstrap_view-lands p ps threads restored title bootstrap o =
    entry_lands p ps threads (threads p.id) restored title bootstrap o refl
