-- ===== src/Worker/Incidents/Tests.antt =====
-- An incident for an operation, asked for once.
use auto_ops.Prelude.{◌≤◌, false, count_where, arith}
use auto_ops.Operation.World.{OperationRow}
use auto_ops.Operation.Service.{new_row}
use auto_ops.Operation.Service.Laws.{local_answer}
use auto_ops.Worker.Incidents.Laws.{incidents_of}
use auto_ops.Samples.{open_world, service_env, start_request}

abbrev row : OperationRow
row = new_row 10 "op-1" false (local_answer service_env start_request) start_request

none_yet : incidents_of "op-1" open_world ≤ 1
unfolding count_where
none_yet = omega arith
