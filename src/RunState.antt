-- ===== src/RunState.antt =====
-- core/orchestration/state.py: the snapshot of a run that flows between graph nodes.
use meta_agent.Common.{ℕ, ◌+◌, String, Bool, false, Option, none, some, ◌==◌}
use meta_agent.Dict
use meta_agent.Dict.{Dict}
use meta_agent.Value.{Value}

abbrev pub start_node : String
start_node = "__start__"

abbrev pub end_node : String
end_node = "__end__"

pub record TaskRunState : Type 0 where
  pub task_id : String
  pub tenant_id : String
  pub trace_id : String
  pub graph_id : String
  pub current_node : String
  pub sequence : ℕ
  pub data_ : Dict Value
  pub finished : Bool
  pub awaiting_approval : Bool
  pub error : Option String

abbrev or_else : Option Bool → Bool → Bool
or_else none b = b
or_else (some a) b = a

-- TaskRunState.advance; an absent `data_update` is the empty one
unfoldable pub advance :
    TaskRunState → String → Dict Value → Option Bool → Option Bool → Option String → TaskRunState
advance s next_node data_update finished awaiting_approval error = record s {
  current_node = next_node;
  sequence = s.sequence + 1;
  data_ = Dict.update s.data_ data_update;
  finished = or_else finished (next_node == end_node);
  awaiting_approval = or_else awaiting_approval false;
  error = error;
}
