-- ===== src/Threads/Route.antt =====
-- app/routes/workspace-route.tsx, and getUserMessageText of thread-title.ts. Titles and texts are
-- UTF-16 code units; React Router keeps one component for the routes of a project and its threads.
pub mod Laws
mod Tests
use fleet_agent.Base.{
  ℕ, String, Bool, true, false, not, Option, none, some, List, [], ◌∷◌, ◌++◌, ◌==◌, ◌&&◌, ◌||◌, any,
  find, keep, nat_eq, if◌then◌else◌,
}
use fleet_agent.Json.{Json, Items, Fields, str, arr, obj, nil, cons, field}
use fleet_agent.Threads.Units.{utf16}
use fleet_agent.Threads.Title.{default_thread_title, derive_thread_title}

abbrev is_text_part : Option Json → Bool
is_text_part (some (str s)) = s == "text"
is_text_part _ = false

abbrev part_text : Fields → List (List ℕ)
part_text fs = elim (field "text" fs) [
  | some (str s) ↦ if is_text_part (field "type" fs) then utf16 s ∷ [] else []
  | _ ↦ []
]

-- the texts of the parts that are records with a text
unfoldable pub text_parts : Items → List (List ℕ)
text_parts nil = []
text_parts (cons (obj fs) rest) = part_text fs ++ text_parts rest
text_parts (cons _ rest) = text_parts rest

-- `.join('\n')`
abbrev pub lines_joined : List (List ℕ) → List ℕ
lines_joined [] = []
lines_joined (t ∷ []) = t
lines_joined (t ∷ u ∷ rest) = t ++ b'\n' ∷ lines_joined (u ∷ rest)

-- `getUserMessageText`, on the role and the content of a message
unfoldable pub get_user_message_text : String → Json → List ℕ
get_user_message_text role (arr items) =
    if role == "user" then lines_joined (text_parts items) else []
get_user_message_text role _ = []

unfoldable pub same_text : List ℕ → List ℕ → Bool
same_text [] [] = true
same_text (c ∷ cs) (d ∷ ds) = nat_eq c d && same_text cs ds
same_text _ _ = false

abbrev pub is_default : List ℕ → Bool
is_default title = same_text title default_thread_title

abbrev is_there : List ℕ → Bool
is_there [] = false
is_there (c ∷ cs) = true

abbrev listed : Option (List ℕ) → List (List ℕ)
listed none = []
listed (some title) = if is_there title then title ∷ [] else []

abbrev first_or_default : List (List ℕ) → List ℕ
first_or_default [] = default_thread_title
first_or_default (title ∷ rest) = title

-- `threadTitle`, from the list of threads and from the bootstrap
unfoldable pub thread_title : Option (List ℕ) → Option (List ℕ) → List ℕ
thread_title listed_title bootstrap_title =
    let known = listed listed_title ++ listed bootstrap_title in
    elim (find (λ title. not (is_default title)) known) [
      | some title ↦ title
      | none ↦ first_or_default known
    ]

-- A call of `handleUserMessagePersisted`: the thread and its title at that time, and the message's text.
pub record Persisted : Type 0 where
  pub thread : Option String
  pub title : List ℕ
  pub text : List ℕ

abbrev pub was_tried : List String → String → Bool
was_tried attempts id = any (λ a. a == id) attempts

abbrev rename_of : List String → String → List ℕ → List ℕ → List String × Option (String × List ℕ)
rename_of attempts id title text =
    let next = derive_thread_title text in
    if (is_default title && not (was_tried attempts id)) && not (is_default next)
    then (id ∷ attempts, some (id, next))
    else (attempts, none)

-- the attempts after the call, and the rename that it requests
unfoldable pub handle_user_message :
    Persisted → List String → List String × Option (String × List ℕ)
handle_user_message p attempts = elim p.thread [
  | none ↦ (attempts, none)
  | some id ↦ rename_of attempts id p.title p.text
]

-- How a query stands.
pub data Query {ℓ} (A : Type ℓ) : Type ℓ where
  pending failed : Query A
  succeeded : A → Query A

abbrev pub is_succeeded {ℓ} : {A : Type ℓ} → Query A → Bool
is_succeeded (succeeded a) = true
is_succeeded _ = false

-- `threads.data?.[0]?.id`
abbrev pub newest : Query (List String) → Option String
newest (succeeded (id ∷ rest)) = some id
newest _ = none

abbrev is_missing : Option String → Bool
is_missing none = true
is_missing (some id) = false

unfoldable pub needs_thread : Option String → Option String → Query (List String) → Bool
needs_thread project thread threads =
    (is_missing thread && not (is_missing project))
    && (is_succeeded threads && is_missing (newest threads))

-- `requestedThread`, and whether `openThread` has failed
pub record Opening : Type 0 where
  pub requested : Bool
  pub is_error : Bool

-- the effect: whether it creates a thread
unfoldable pub open_effect : Bool → Opening → Opening × Bool
open_effect needed o =
    if needed && not o.requested
    then (record { requested = true; is_error = false }, true)
    else (o, false)

-- the button of the error
unfoldable pub retry_opening : Opening → Opening
retry_opening o = record { requested = false; is_error = false }

pub data View : Type 0 where
  to_project : String → View
  to_thread : String → String → View
  cannot_start cannot_restore loading : View
  workspace : Option String → List ℕ → View

abbrev of_bootstrap : Query (List ℕ) → View → View
of_bootstrap pending view = loading
of_bootstrap failed view = cannot_restore
of_bootstrap (succeeded title) view = view

abbrev is_listed : Query (List String) → String → Bool
is_listed (succeeded ids) id = any (λ i. i == id) ids
is_listed _ id = true

abbrev in_project : String → Option String → Opening → View
in_project project (some id) o = to_thread project id
in_project project none o = if o.is_error then cannot_start else loading

-- what the route renders, for a project and perhaps a thread; `title` is `threadTitle`
unfoldable pub route_view :
    String → Option String → Query (List String) → Query (List ℕ) → List ℕ → Opening → View
route_view project (some id) threads bootstrap title o =
    if is_listed threads id
    then of_bootstrap bootstrap (workspace (some id) title)
    else to_project project
route_view project none threads bootstrap title o = in_project project (newest threads) o
