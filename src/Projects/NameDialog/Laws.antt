-- ===== src/Projects/NameDialog/Laws.antt =====
-- That the dialog has one request at most in flight, and which names it sends.
use fleet_agent.Base.{
  ℕ, ◌+◌, String, ◌≡◌, refl, Bool, true, false, some, All, trim, trim_idem, is_empty, ◌==◌, ◌||◌,
  arith, Bool-cases, inl, inr, if◌then◌else◌,
}
use fleet_agent.Projects.NameDialog.{
  NameDialog, mount_dialog, handle_open_change, handle_submit, end_submit, is_submit_disabled,
  Event, rerender, open_by_parent, change_open, change_name, submit, handle, Reachable, mounted,
  handled, ended,
}

-- A name that may be sent: it has no margin, is not empty, and is not the one there was.
abbrev pub IsSendable : String × String → Type 0
IsSendable (initial, name) =
    (trim name ≡ name) × (is_empty name ≡ false) × ((name == initial) ≡ false)

abbrev pub requests : Bool → ℕ
requests pending = if pending then 1 else 0

pub record IsSound (d : NameDialog) : Type 0 where
  pub one : d.in_flight ≡ requests d.pending
  pub sendable : All IsSendable d.sent

handle-IsSound : (event : Event) (d : NameDialog) → IsSound d → IsSound (handle event d)
unfolding handle handle_open_change handle_submit
handle-IsSound (rerender name) d s = record { one = s.one; sendable = s.sendable }
handle-IsSound open_by_parent d s = record { one = s.one; sendable = s.sendable }
handle-IsSound (change_open true) d s = record { one = s.one; sendable = s.sendable }
handle-IsSound (change_open false) d s = record { one = s.one; sendable = s.sendable }
handle-IsSound (change_name value) d s = record { one = s.one; sendable = s.sendable }
handle-IsSound submit d s =
    elim (Bool-cases (is_empty (trim d.name) || trim d.name == d.initial_name || d.pending)) [
      | inl refused ↦ rw refused s
      | inr sent ↦ rw sent (record {
        one = ground (arith, s.one);
        sendable = ((trim_idem d.name, ground arith, ground arith), s.sendable);
      })
    ]

end_submit-IsSound :
    (succeeded : Bool) (d : NameDialog) (n : ℕ)
    → d.in_flight ≡ n + 1
    → IsSound d
    → IsSound (end_submit succeeded d)
unfolding end_submit
end_submit-IsSound true d n h s = record { one = ground (arith, s.one); sendable = s.sendable }
end_submit-IsSound false d n h s = record { one = ground (arith, s.one); sendable = s.sendable }

-- Whatever the order of renders, events and ends of requests: a request is in flight exactly while
-- the dialog is pending, never two; and each name that was sent has no margin, is not empty and
-- differs from the name that the project had then.
pub reachable-IsSound : (d : NameDialog) → Reachable d → IsSound d
unfolding mount_dialog
reachable-IsSound _ (mounted name) = record { one = refl; sendable = tt }
reachable-IsSound _ (handled event d r) = handle-IsSound event d (reachable-IsSound d r)
reachable-IsSound _ (ended succeeded d n r h) =
    end_submit-IsSound succeeded d n h (reachable-IsSound d r)

-- A disabled button refuses what the handler refuses.
disabled-refuses : (d : NameDialog) → is_submit_disabled d ≡ true → handle submit d ≡ d
unfolding is_submit_disabled handle handle_submit
disabled-refuses d h = rw h refl

-- After a failed request the error is there when the parent opens the dialog again.
kept_error :
    (d : NameDialog)
    → (handle open_by_parent (handle (change_open false) (end_submit false d))).error
      ≡ some "Something went wrong. Please try again."
unfolding handle handle_open_change end_submit
kept_error d = refl
