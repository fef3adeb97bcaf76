-- ===== src/Scenario/Model.antt =====
-- internal/scenario/scenario.go: the records of a scenario, and the jobs that validation keeps track of.
-- The configuration of a node is an argument: its type, and the operations of internal/model/config.go.
use v.Common.{
  Bool, true, false, not, ◌&&◌, Option, none, some, List, [], ◌∷◌, ◌++◌, String, ◌==◌,
  if◌then◌else◌, Dict, lookup, insert, contains, add, remove, filter, or_zero, sort_by, text_lt,
}
use v.Common.Int.{ℤ}
use v.Network.Distribution.{Distribution}

-- `model.NodeConfig`: `built_in` is `BuiltInNodeConfig`, the others are its field and its methods.
pub record NodeConfigs : Type 1 where
  pub NodeConfig : Type 0
  pub ConfigError : Type 0
  pub type_of : NodeConfig → String
  pub with_type : String → NodeConfig → NodeConfig
  pub built_in : String → Option NodeConfig
  pub full : NodeConfig  -- the built-in "full"
  pub merge : NodeConfig → NodeConfig → NodeConfig
  pub with_defaults : NodeConfig → NodeConfig
  pub validate : NodeConfig → Option ConfigError

-- `F` is `float64` and `C` is the configuration of a node. `await` is a pointer to a boolean.
pub record Phase (F C : Type 0) : Type 0 where
  pub name : String
  pub job : String
  pub jobs : List String
  pub action : String
  pub on_error : String
  pub agent_id : String
  pub placement : String
  pub group : String
  pub role : String
  pub profile : String
  pub node_type : String
  pub count : ℤ
  pub repeat : ℤ
  pub parallel : Bool
  pub parallelism : ℤ
  pub await : Option Bool
  pub duration : String
  pub timeout : String
  pub message : String
  pub ready_ratio : F
  pub min_count : ℤ
  pub payload_size : ℤ
  pub payload_encoding : String
  pub delivery_window : String
  pub topic : String
  pub interval : Distribution F
  pub lifetime : Distribution F
  pub node : C

pub record Scenario (F C : Type 0) : Type 0 where
  pub version : ℤ
  pub name : String
  pub seed : ℤ
  pub on_exit : String
  pub job_shutdown_timeout : String
  pub profiles : Dict C
  pub phases : List (Phase F C)

unfoldable pub should_await : {F C : Type 0} → Phase F C → Bool
should_await p = elim p.await [ none ↦ true | some b ↦ b ]

-- `backgroundJoins` and `knownJobs` of `Validate`.
pub record Tracking : Type 0 where
  pub background_joins : Dict (List String)
  pub known_jobs : List String

unfoldable pub add_join : String → String → Dict (List String) → Dict (List String)
add_join group job m = insert group (add job (or_zero [] (lookup group m))) m

unfoldable pub candidates_of : String → List String → Dict (List String) → List String
candidates_of group waited [] = []
candidates_of group waited ((g, jobs) ∷ m) =
    let rest = candidates_of group waited m in
    if not (group == "") && not (g == group)
    then rest
    else filter (λ j. not (contains j waited)) jobs ++ rest

abbrev pub first_or_empty : List String → String
first_or_empty [] = ""
first_or_empty (x ∷ xs) = x

-- `firstUnwaitedBackgroundJoin`.
unfoldable pub first_unwaited : Dict (List String) → String → List String → String
first_unwaited m group waited = first_or_empty (sort_by text_lt (candidates_of group waited m))

unfoldable pub remove_each : List String → List String → List String
remove_each [] jobs = jobs
remove_each (w ∷ ws) jobs = remove_each ws (remove w jobs)

abbrev pub is_nil : List String → Bool
is_nil [] = true
is_nil (x ∷ xs) = false

-- `removeBackgroundJoinJobs`.
unfoldable pub remove_joins : List String → Dict (List String) → Dict (List String)
remove_joins waited [] = []
remove_joins waited ((g, jobs) ∷ m) =
    let rest = remove_joins waited m in
    let left = remove_each waited jobs in if is_nil left then rest else (g, left) ∷ rest
