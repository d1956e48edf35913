-- ===== src/Projects/NameDialog.antt =====
-- project-sidebar.tsx: ProjectNameDialog, which creates or renames a project. A step is a render with
-- another name, an event of the dialog or the end of the request.
pub mod Laws
use fleet_agent.Base.{
  ℕ, ◌+◌, ◌-◌, String, ◌≡◌, Bool, true, false, not, Option, none, some, List, [], ◌∷◌, trim,
  is_empty, ◌==◌, ◌||◌, if◌then◌else◌,
}

pub record NameDialog : Type 0 where
  pub initial_name : String  -- the property `initialName`
  pub is_open : Bool  -- the property `open`, which the parent keeps
  pub name : String
  pub error : Option String
  pub pending : Bool
  pub sent : List (String × String)  -- the names submitted, each with the initial name it differs from
  pub in_flight : ℕ  -- the requests that have not ended

-- the first render
unfoldable pub mount_dialog : String → NameDialog
mount_dialog initial_name = record {
  initial_name = initial_name;
  is_open = false;
  name = initial_name;
  error = none;
  pending = false;
  sent = [];
  in_flight = 0;
}

-- `handleOpenChange`
unfoldable pub handle_open_change : Bool → NameDialog → NameDialog
handle_open_change true d = record d { name = d.initial_name; error = none; is_open = true }
handle_open_change false d = record d { is_open = false }

-- `handleSubmit` up to its first `await`
unfoldable pub handle_submit : NameDialog → NameDialog
handle_submit d =
    let trimmed = trim d.name in
    if is_empty trimmed || trimmed == d.initial_name || d.pending then d else record d {
      pending = true;
      error = none;
      sent = (d.initial_name, trimmed) ∷ d.sent;
      in_flight = d.in_flight + 1;
    }

-- the rest of it, when `onSubmit` and `onSuccess` have ended or one of them has failed
unfoldable pub end_submit : Bool → NameDialog → NameDialog
end_submit true d = record d { is_open = false; pending = false; in_flight = d.in_flight - 1 }
end_submit false d = record d {
  error = some "Something went wrong. Please try again.";
  pending = false;
  in_flight = d.in_flight - 1;
}

-- whether the button is disabled, and what it says
unfoldable pub is_submit_disabled : NameDialog → Bool
is_submit_disabled d = is_empty (trim d.name) || trim d.name == d.initial_name || d.pending

unfoldable pub submit_label : String → NameDialog → String
submit_label confirm_label d = if d.pending then "Saving…" else confirm_label

pub data Event : Type 0 where
  rerender : String → Event  -- another `initialName`
  open_by_parent : Event  -- the parent sets `open`
  change_open : Bool → Event
  change_name : String → Event
  submit : Event

unfoldable pub handle : Event → NameDialog → NameDialog
unfolding handle_open_change handle_submit
handle (rerender name) d = record d { initial_name = name }
handle open_by_parent d = record d { is_open = true }
handle (change_open next) d = handle_open_change next d
handle (change_name value) d = record d { name = value }
handle submit d = handle_submit d

-- The states that a dialog can come to; a request ends if one is in flight.
pub data Reachable : NameDialog → Type 0 where
  mounted : (name : String) → Reachable (mount_dialog name)
  handled : (event : Event) (d : NameDialog) → Reachable d → Reachable (handle event d)
  ended :
      (succeeded : Bool) (d : NameDialog) (n : ℕ)
      → Reachable d
      → d.in_flight ≡ n + 1
      → Reachable (end_submit succeeded d)
