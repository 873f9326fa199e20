-- ===== src/Api/Keys.antt =====
-- api/workflow_input.go and the subjects of api/constant.go.
pub mod Separate
use durablefuture.Prelude.{String, ◌∷◌, [], concat}

unfoldable pub workflow_input_key : String → String → String
workflow_input_key workflow_fn_name workflow_id = concat (workflow_fn_name ∷ "/" ∷ workflow_id ∷ [])

abbrev pub history_subject_prefix : String
history_subject_prefix = "history"

-- `HistoryPublishSubjectPattern` at a workflow's id.
abbrev pub history_publish_subject : String → String
history_publish_subject workflow_id = concat (history_subject_prefix ∷ "." ∷ workflow_id ∷ [])
