-- ===== src/Server/Answers.antt =====
-- What the tools of mcp_server/server.py answer: the dicts that `json.dumps` writes.
use dbwarden_harness.Base.{ℕ, String, ◌<>◌, Option, none, some, List, [], ◌∷◌, map, string_eq}
use dbwarden_harness.Base.Json.{
  Json, null, boolean, number, text, array, object, Items, nil, cons, Fields, end, field,
}
use dbwarden_harness.Base.Result.{Result, ok, err}
use dbwarden_harness.Disk.{FilePath, Event, Disk, Programs}
use dbwarden_harness.Workspace.{
  Manager, InitializeResult, DestroyResult, WorkspaceInfo, get, list_workspaces,
}
use dbwarden_harness.Tracks.{TrackResult, dump_schema}
use dbwarden_harness.Comparator.{ComparisonResult}
use dbwarden_harness.Bundle.{TwoTrackResult, summary_json, plan_json}
use dbwarden_harness.Server.{Server}

abbrev optional : Option String → Json
optional none = null
optional (some s) = text s

pub json_list : List Json → Items
json_list [] = nil
json_list (j ∷ js) = cons j (json_list js)

-- A dict from its keys and values.
pub dict : List (String × Json) → Fields
dict [] = end
dict ((key, value) ∷ rest) = field key value (dict rest)

pub initialize_answer : InitializeResult → Json
unfolding dict
initialize_answer r = object (
    dict (
      ("workspace_id", text r.workspace_id)
      ∷ ("backend", text r.backend)
      ∷ ("db_version", optional r.db_version)
      ∷ ("work_dir", text r.work_dir)
      ∷ ("track_a_url", text r.track_a_url)
      ∷ ("track_b_url", text r.track_b_url)
      ∷ []))

pub destroy_answer : DestroyResult → Json
unfolding dict
destroy_answer r =
    object (dict (("workspace_id", text r.workspace_id) ∷ ("removed", boolean r.removed) ∷ []))

info_answer : WorkspaceInfo → Json
unfolding dict
info_answer w = object (
    dict (
      ("workspace_id", text w.workspace_id)
      ∷ ("backend", text w.backend)
      ∷ ("db_version", optional w.db_version)
      ∷ ("work_dir", text w.work_dir)
      ∷ ("created_at", number w.created_at)
      ∷ ("frozen", boolean w.frozen)
      ∷ []))

pub list_answer : Manager → Json
unfolding json_list info_answer
list_answer m = array (json_list (map info_answer (list_workspaces m)))

pub write_answer : String → String → ℕ → Json
unfolding dict
write_answer id relative size = object (
    dict (
      ("workspace_id", text id)
      ∷ ("relative_path", text relative)
      ∷ ("bytes_written", number size)
      ∷ []))

pub mutation_answer : String → String → List Fields → Json
unfolding dict json_list
mutation_answer id source applied = object (
    dict (
      ("workspace_id", text id)
      ∷ ("relative_path", text "app/models.py")
      ∷ ("new_source", text source)
      ∷ ("applied", array (json_list (map object applied)))
      ∷ []))

-- The path of a dump is never set.
track_answer : TrackResult → List (String × Json) → Json
unfolding dict
track_answer t plan = object (
    dict (
      ("success", boolean t.success)
      ∷ ("stage", text t.stage)
      ∷ ("error", text t.error)
      ∷ ("schema_dump_path", null)
      ∷ plan))

comparator_answer : ComparisonResult → Json
unfolding dict
comparator_answer c = object (
    dict (
      ("identical", boolean c.identical)
      ∷ ("diff", text c.diff)
      ∷ ("summary", summary_json c.summary)
      ∷ []))

-- `show` writes a path.
pub two_track_result_to_dict : (FilePath → String) → TwoTrackResult → Json
unfolding dict track_answer comparator_answer
two_track_result_to_dict show r = object (
    dict (
      ("passed", boolean r.passed)
      ∷ ("track_a", track_answer r.track_a (("plan", plan_json r.track_a.plan) ∷ []))
      ∷ ("track_b", track_answer r.track_b [])
      ∷ ("comparator", comparator_answer r.comparator)
      ∷ ("classification", text r.classification)
      ∷ (
        "proof_bundle_path",
        elim r.proof_bundle_path [ none ↦ null | some path ↦ text (show path) ],
      )
      ∷ ("ai_may_inspect", boolean r.ai_may_inspect)
      ∷ []))

pub read_answer : String → String → String → Json
unfolding dict
read_answer id relative content = object (
    dict (
      ("workspace_id", text id)
      ∷ ("relative_path", text relative)
      ∷ ("content", text content)
      ∷ []))

-- A dump, or the text of its error.
inspected : Programs → (List Event → String → String) → String → String → Disk → String × Disk
inspected programs error url backend d =
    let (dump, d') = dump_schema programs url backend d in
    (elim dump [ none ↦ "ERROR: " <> error d.log url | some schema ↦ schema ], d')

-- `error` is the message of a dump that fails.
pub inspect_schema :
    Programs → (List Event → String → String) → String → Server → Result Json × Server
unfolding dict inspected
inspect_schema programs error id s = elim (get id s.manager) [
  | err e ↦ (err e, s)
  | ok w ↦
      let (a, d₁) = inspected programs error w.track_a_url w.backend s.disk in
      let (b, d₂) = inspected programs error w.track_b_url w.backend d₁ in
      (
        ok (
            object (
              dict (
                ("workspace_id", text id)
                ∷ ("track_a_schema_dump", text a)
                ∷ ("track_b_schema_dump", text b)
                ∷ []))),
        record s { disk = d₂ },
      )
]
