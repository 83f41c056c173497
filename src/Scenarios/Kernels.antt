-- ===== src/Scenarios/Kernels.antt =====
-- A kernel that registers a participant, creates a project and raises a hold.
use navis.Base.{◌≡◌, refl, ℕ, String, Bool, true, false, Option, none, some, List, [], ◌∷◌}
use navis.Schema.Vocabulary.{ParticipantType}
use navis.State.Replay
use navis.State.History
use navis.State.History.{verify_event_history}
use navis.Kernel.Core.{Kernel, new_kernel}
use navis.Kernel.Log.{rebuild_projection, from_events}
use navis.Kernel.Project.{RegisterParticipantCommand, CreateProjectCommand}
use navis.Kernel.Sound.Reach.{
  Command, execute, Reachable, Reachable-rebuild_projection, Reachable-from_events,
}
use navis.Kernel.Sound.Reach.{has_refused}
use navis.Kernel.Sound.Refusals.{execute-refused}
use navis.Scenarios.Base.{plain, now, alice, project_one}

abbrev register_alice : Command
register_alice =
    Command.register_participant (record {
      participant_id = alice;
      type = ParticipantType.human;
      display_name = none;
      at = now;
    })

abbrev create_one : Command
create_one =
    Command.create_project
      (record {
        project_id = none;
        actor = alice;
        at = now;
        title = "one";
        purpose = none;
        boundary = none;
        acceptance_criteria = none;
        expected_version = 0;
      })
      project_one

abbrev pub first_kernel : Kernel
first_kernel = (execute plain register_alice new_kernel).1

abbrev pub second_kernel : Kernel
second_kernel = (execute plain create_one first_kernel).1

pub second_reached : Reachable plain second_kernel
unfolding execute navis.Kernel.Project.register_participant navis.Kernel.Project.create_project
    navis.Kernel.Core.◌>>◌ navis.Kernel.Core.◌>>=◌ navis.Kernel.Core.invalid_fields
    navis.Base.filter navis.Schema.Ids.is_uuidv7 navis.Base.lookup navis.Base.insert
    navis.Kernel.Core.append navis.State.Payload.is_payload History.append
    navis.State.Payload.is_envelope History.current_seq History.head navis.State.Apply.apply_event
    navis.Kernel.Core.whitespace_only navis.Base.is_blank navis.Base.trim navis.Base.trim_start
    navis.Base.trim_end navis.Base.any navis.Base.all navis.Kernel.Core.require_known_actor
    navis.State.Apply.Project.fold_participant_registered
    navis.State.Apply.Project.fold_project_created
second_reached =
    Reachable.next create_one first_kernel
      (Reachable.next register_alice new_kernel Reachable.start refl) refl

Reachable-rebuild_projection_example :
    rebuild_projection plain none second_kernel ≡ Replay.ok second_kernel.draft
Reachable-rebuild_projection_example =
    Reachable-rebuild_projection plain none second_kernel second_reached

Reachable-from_events_example :
    from_events plain none second_kernel.history ≡ Replay.ok second_kernel
Reachable-from_events_example = Reachable-from_events plain none second_kernel second_reached

no_actor_refused : has_refused (execute plain create_one new_kernel).0 ≡ true
unfolding execute navis.Kernel.Project.register_participant navis.Kernel.Project.create_project
    navis.Kernel.Core.◌>>◌ navis.Kernel.Core.◌>>=◌ navis.Kernel.Core.invalid_fields
    navis.Base.filter navis.Schema.Ids.is_uuidv7 navis.Base.lookup navis.Base.insert
    navis.Kernel.Core.append navis.State.Payload.is_payload History.append
    navis.State.Payload.is_envelope History.current_seq History.head navis.State.Apply.apply_event
    navis.Kernel.Core.whitespace_only navis.Base.is_blank navis.Base.trim navis.Base.trim_start
    navis.Base.trim_end navis.Base.any navis.Base.all navis.Kernel.Core.require_known_actor
    navis.State.Apply.Project.fold_participant_registered
    navis.State.Apply.Project.fold_project_created
no_actor_refused = refl

execute-refused_example : (execute plain create_one new_kernel).1 ≡ new_kernel
execute-refused_example = execute-refused plain create_one new_kernel refl no_actor_refused
