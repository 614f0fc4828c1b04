-- ===== src/Servers/Files.antt =====
-- panel/src/api/routes/files.ts and the routes of panel/src/api/routes/console.ts that are no sockets,
-- behind the guards of their routes. An upload is a stream, which is not modelled.
pub mod Laws
use troxe_host.Common.{
  ℕ, suc, Bool, true, false, not, ◌||◌, Option, none, some, List, [], ◌∷◌, Text, codes,
  if◌then◌else◌, ◌==◌, text_eq,
}
use troxe_host.Js.{starts_with, split_on, trim}
use troxe_host.Agent.{
  NodeInfo, Action, AgentData, AgentResponse, accepted, refused, mentions, file_list, file_read,
  file_write, file_create, file_delete, file_rename, file_compress, file_decompress, logs,
}
use troxe_host.Effects.{Env, Exec, pure, gets, ◌>>=◌, ◌>>◌}
use troxe_host.Db.Table.{select_where}
use troxe_host.Reply.{Reply, sent, failed}
use troxe_host.Workers.Steps.{node_for_server, agent_post, log_event, subject_server}

-- `resp.status || 500`
abbrev status_or : ℕ → ℕ
status_or status = if status == 0 then 500 else status

-- what a route makes of the agent's answer
abbrev passed : AgentResponse → Reply AgentData
passed (accepted d) = sent d
passed (refused status e) = failed (status_or status) e

-- `getNodeForServer`, and one call of the agent
unfoldable pub forward_to : Env → Text → Action → Option NodeInfo → Exec (Reply AgentData)
forward_to env id action none = pure (failed 404 (codes "Node not found"))
forward_to env id action (some node) = do resp ← agent_post env node id action; pure (passed resp)

unfoldable pub forward : Env → Text → Action → Exec (Reply AgentData)
unfolding forward_to
forward env id action = do node ← gets (λ w. node_for_server id w.db); forward_to env id action node

-- `s.includes("..")`
abbrev pub climbs : Text → Bool
climbs s = mentions (codes "..") s

-- `filePath.includes("..") || filePath.startsWith("/")`
abbrev pub is_outside : Text → Bool
is_outside path = climbs path || starts_with (codes "/") path

-- `GET /servers/:id/files/list`; the empty path is that of no query
unfoldable pub list_files : Env → Text → Text → Exec (Reply AgentData)
list_files env id path = forward env id (file_list path)

-- a call for one path that is checked first
unfoldable pub forward_inside : Env → Text → Text → Text → Action → Exec (Reply AgentData)
forward_inside env id message path action =
    if is_outside path then pure (failed 400 message) else forward env id action

-- `GET /servers/:id/files/*`
unfoldable pub read_file : Env → Text → Text → Exec (Reply AgentData)
unfolding forward_inside
read_file env id path = forward_inside env id (codes "Invalid file path") path (file_read path)

-- the event of a file that was written
unfoldable pub note_written : Text → Reply AgentData → Exec (Reply AgentData)
note_written id (sent d) = do log_event (codes "file.written") subject_server id; pure (sent d)
note_written id (failed status message) = pure (failed status message)

-- `PUT /servers/:id/files/*`
unfoldable pub write_file : Env → Text → Text → Text → Exec (Reply AgentData)
unfolding forward_inside note_written
write_file env id path content = do
  answer ← forward_inside env id (codes "Invalid file path") path (file_write path content)
  note_written id answer

-- `POST /servers/:id/files/create`; `type` is "file" or "directory", and no path is the empty one
unfoldable pub create_file : Env → Text → Text → Text → Text → Exec (Reply AgentData)
unfolding forward_inside
create_file env id name type path =
    forward_inside env id (codes "Invalid name") name (file_create name type path)

-- `DELETE /servers/:id/files/*`
unfoldable pub delete_file : Env → Text → Text → Exec (Reply AgentData)
unfolding forward_inside
delete_file env id path = forward_inside env id (codes "Invalid file path") path (file_delete path)

-- `POST /servers/:id/files/rename`
unfoldable pub rename_file : Env → Text → Text → Text → Exec (Reply AgentData)
rename_file env id old new =
    if climbs old || climbs new
    then pure (failed 400 (codes "Invalid path"))
    else forward env id (file_rename old new)

-- `POST /servers/:id/files/compress`
unfoldable pub compress_file : Env → Text → Text → Text → Exec (Reply AgentData)
compress_file env id path name = forward env id (file_compress path name)

-- `POST /servers/:id/files/decompress`
unfoldable pub decompress_file : Env → Text → Text → Exec (Reply AgentData)
decompress_file env id path = forward env id (file_decompress path)

abbrev is_line : Text → Bool
is_line [] = false
is_line (c ∷ line) = true

-- the lines of a log with their numbers, from `n` on
unfoldable pub numbered : ℕ → List Text → List (ℕ × Text)
numbered n [] = []
numbered n (line ∷ lines) = (n, line) ∷ numbered (suc n) lines

-- `GET /servers/:id/console`: the lines that are not empty
unfoldable pub console_lines : Option Text → List (ℕ × Text)
unfolding numbered
console_lines none = []
console_lines (some text) = numbered 1 (select_where is_line (split_on b'\n' text))

abbrev shown_logs : AgentResponse → Reply (List (ℕ × Text))
shown_logs (accepted d) = sent (console_lines d.logs)
shown_logs (refused status e) = sent []

unfoldable pub read_from : Env → Text → Option NodeInfo → Exec (Reply (List (ℕ × Text)))
unfolding console_lines
read_from env id none = pure (failed 404 (codes "Node not found"))
read_from env id (some node) = do resp ← agent_post env node id logs; pure (shown_logs resp)

unfoldable pub read_console : Env → Text → Exec (Reply (List (ℕ × Text)))
unfolding read_from
read_console env id = do node ← gets (λ w. node_for_server id w.db); read_from env id node

-- `POST /servers/:id/console`: the command is answered, and not sent to the agent
unfoldable pub post_console : Text → Reply Text
post_console command =
    if text_eq (trim command) [] then failed 400 (codes "Command required") else sent command
