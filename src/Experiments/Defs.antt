-- ===== src/Experiments/Defs.antt =====
-- internal/model/model.go: the record of a run. internal/controller/state.go: `experimentBefore`, by which
-- the inventories and the snapshots sort the runs. The scenario's text and the timing of the phases are left out.
use v.Common.{Bool, String, ◌==◌, if◌then◌else◌, List, ltb, nat_eq, text_lt}
use v.Common.Int.{ℤ, ltb_ℤ, eq_ℤ}
use v.Common.Order.{lexical}
use v.Model.{Time, Agent}

pub record Experiment : Type 0 where
  pub stop_requested : Bool
  pub controller_version : String
  pub cleanup_state : String
  pub data_state : String
  pub integrity_error : String
  pub cleanup_error : String
  pub agents : List Agent
  pub execution_id : String
  pub superseded : Bool
  pub previous_run_ids : List String
  pub id : String
  pub batch_id : String
  pub iteration : ℤ
  pub repetitions : ℤ
  pub name : String
  pub state : String
  pub seed : ℤ
  pub phase : ℤ
  pub total_phases : ℤ
  pub phase_name : String
  pub active_jobs : ℤ
  pub completed_jobs : ℤ
  pub failed_jobs : ℤ
  pub canceled_jobs : ℤ
  pub started_at : Time
  pub finished_at : Time
  pub error : String

-- A run that is not part of a batch is a group of its own.
abbrev pub group_of : Experiment → String
group_of e = if e.batch_id == "" then e.id else e.batch_id

-- The later start stands first.
abbrev pub started_later : Experiment → Experiment → Bool
started_later a b = ltb b.started_at a.started_at

abbrev pub same_start : Experiment → Experiment → Bool
same_start a b = nat_eq a.started_at b.started_at

abbrev pub group_before : Experiment → Experiment → Bool
group_before a b = text_lt (group_of a) (group_of b)

abbrev pub same_group : Experiment → Experiment → Bool
same_group a b = group_of a == group_of b

abbrev pub iteration_before : Experiment → Experiment → Bool
iteration_before a b = ltb_ℤ a.iteration b.iteration

abbrev pub same_iteration : Experiment → Experiment → Bool
same_iteration a b = eq_ℤ a.iteration b.iteration

abbrev pub id_before : Experiment → Experiment → Bool
id_before a b = text_lt a.id b.id

-- `experimentBefore`.
unfoldable pub experiment_before : Experiment → Experiment → Bool
experiment_before =
    lexical started_later same_start
      (lexical group_before same_group (lexical iteration_before same_iteration id_before))
