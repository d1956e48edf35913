-- ===== src/Projects/Tests.antt =====
-- Runs of the name dialog.
use fleet_agent.Projects.NameDialog.{
  NameDialog, mount_dialog, handle, change_name, submit, mounted, handled,
}
use fleet_agent.Projects.NameDialog.Laws.{IsSound, reachable-IsSound}

abbrev typed : NameDialog
typed = handle (change_name " Alpha ") (mount_dialog "")

reachable-IsSound_example : IsSound (handle submit typed)
reachable-IsSound_example =
    reachable-IsSound (handle submit typed)
      (handled submit typed (handled (change_name " Alpha ") (mount_dialog "") (mounted "")))
