-- ===== src/Servers/Files/Laws.antt =====
-- Which texts the routes of files let through to an agent.
use troxe_host.Common.{
  ℕ, Bool, true, false, ◌||◌, Option, none, some, [], ◌∷◌, ◌++◌, Text, codes, ◌≡◌, ◌≢◌, refl, ap,
  ==_iff, All, All-append, Bool-cases, inl, inr,
}
use troxe_host.Js.{starts_with}
use troxe_host.Agent.{
  mentions, NodeInfo, AgentCall, AgentData, Action, file_list, file_read, file_write, file_create,
  file_delete, file_rename, file_compress, file_decompress,
}
use troxe_host.Effects.{World, Env, gets, pure, modify, ◌>>=◌}
use troxe_host.Effects.Keeps.{Keeps, Keeps-bind, Keeps-pure}
use troxe_host.Reply.{Reply, sent, failed}
use troxe_host.Workers.Steps.{node_for_server, agent_post, log_event}
use troxe_host.Servers.Files.{
  forward, forward_to, climbs, is_outside, forward_inside, list_files, read_file, note_written,
  write_file, create_file, delete_file, rename_file, compress_file, decompress_file, read_console,
  read_from,
}

neither : (a b : Bool) → (a || b) ≡ false → (a ≡ false) × (b ≡ false)
neither true b h = cc
neither false b h = (refl, h)

or_true : (a : Bool) → (a || true) ≡ true
or_true true = refl
or_true false = refl

-- Two dots stand nowhere in a text.
abbrev pub IsDotless : Text → Type 0
IsDotless path = (a b : Text) → path ≢ a ++ (codes ".." ++ b)

-- A text that has no two dots and does not begin with a slash.
abbrev pub IsBelow : Text → Type 0
IsBelow path = IsDotless path × ((rest : Text) → path ≢ codes "/" ++ rest)

-- The texts that the routes of reading, writing and deleting put into the path of the URL, the name of
-- a new file and both names of a renaming; nothing of the directory of a new file, nor of the calls
-- that list, compress and decompress.
abbrev pub IsInside : Action → Type 0
IsInside (file_read path) = IsBelow path
IsInside (file_write path content) = IsBelow path
IsInside (file_delete path) = IsBelow path
IsInside (file_create name type path) = IsBelow name
IsInside (file_rename old new) = IsDotless old × IsDotless new
IsInside _ = Unit

starts_with-append : (piece rest : Text) → starts_with piece (piece ++ rest) ≡ true
starts_with-append [] rest = refl
starts_with-append (c ∷ piece) rest = rw ((==_iff c c).1 refl) (starts_with-append piece rest)

mentions-append : (c : ℕ) (piece a b : Text) → mentions (c ∷ piece) (a ++ (c ∷ piece ++ b)) ≡ true
unfolding mentions
mentions-append c piece [] b = rw (starts_with-append (c ∷ piece) b) refl
mentions-append c piece (x ∷ a) b =
    rw (mentions-append c piece a b) (or_true (starts_with (c ∷ piece) (x ∷ a ++ (c ∷ piece ++ b))))

climbs-IsDotless : (path : Text) → climbs path ≡ false → IsDotless path
climbs-IsDotless path h a b e = cc (h, mentions-append b'.' (codes ".") a b)

is_outside-IsBelow : (path : Text) → is_outside path ≡ false → IsBelow path
is_outside-IsBelow path h =
    let (dotless, relative) = neither _ _ h in
    (
      climbs-IsDotless path dotless,
      λ rest e. cc (relative, ap (starts_with (codes "/")) e, starts_with-append (codes "/") rest),
    )

pub record AreInside (w : World) : Type 0 where
  pub calls : All (λ (c : AgentCall). IsInside c.action) w.calls

forward_to-AreInside :
    (env : Env) (id : Text) (action : Action) (node : Option NodeInfo)
    → IsInside action
    → Keeps AreInside (forward_to env id action node)
unfolding forward_to agent_post pure ◌>>=◌
forward_to-AreInside env id action none inside = record { at = λ w h. h }
forward_to-AreInside env id action (some node) inside = record {
  at = λ w h. record { calls = All-append _ w.calls _ h.calls (inside, tt) };
}

forward-AreInside :
    (env : Env) (id : Text) (action : Action)
    → IsInside action
    → Keeps AreInside (forward env id action)
unfolding forward gets ◌>>=◌
forward-AreInside env id action inside = record {
  at = λ w h. (forward_to-AreInside env id action (node_for_server id w.db) inside).at w h;
}

forward_inside-AreInside :
    (env : Env) (id message path : Text) (action : Action)
    → (is_outside path ≡ false → IsInside action)
    → Keeps AreInside (forward_inside env id message path action)
unfolding forward_inside
forward_inside-AreInside env id message path action inside = elim (Bool-cases (is_outside path)) [
  | inl outside ↦ rw outside (Keeps-pure _)
  | inr within ↦ rw within (forward-AreInside env id action (inside within))
]

note_written-AreInside :
    (id : Text) (answer : Reply AgentData) → Keeps AreInside (note_written id answer)
unfolding note_written log_event modify pure ◌>>=◌
note_written-AreInside id (sent d) = record { at = λ w h. record { calls = h.calls } }
note_written-AreInside id (failed status message) = record { at = λ w h. h }

write_file-AreInside :
    (env : Env) (id path content : Text) → Keeps AreInside (write_file env id path content)
unfolding write_file
write_file-AreInside env id path content =
    Keeps-bind _ _
      (forward_inside-AreInside env id _ path (file_write path content) (is_outside-IsBelow path))
      (note_written-AreInside id)

rename_file-AreInside :
    (env : Env) (id old new : Text) → Keeps AreInside (rename_file env id old new)
unfolding rename_file
rename_file-AreInside env id old new = elim (Bool-cases (climbs old || climbs new)) [
  | inl outside ↦ rw outside (Keeps-pure _)
  | inr within ↦ rw within (
      forward-AreInside env id (file_rename old new) (
        let (of_old, of_new) = neither _ _ within in
        (climbs-IsDotless old of_old, climbs-IsDotless new of_new)))
]

read_from-AreInside :
    (env : Env) (id : Text) (node : Option NodeInfo) → Keeps AreInside (read_from env id node)
unfolding read_from agent_post pure ◌>>=◌
read_from-AreInside env id none = record { at = λ w h. h }
read_from-AreInside env id (some node) = record {
  at = λ w h. record { calls = All-append _ w.calls _ h.calls (tt, tt) };
}

read_console-AreInside : (env : Env) (id : Text) → Keeps AreInside (read_console env id)
unfolding read_console gets ◌>>=◌
read_console-AreInside env id = record {
  at = λ w h. (read_from-AreInside env id (node_for_server id w.db)).at w h;
}

-- What users do to the files of all servers, in any order.
pub data Requests (env : Env) (start : World) : World → Type 0 where
  here : Requests env start start
  lists :
      {w : World} (id path : Text)
      → Requests env start w
      → Requests env start (list_files env id path w).1
  reads :
      {w : World} (id path : Text)
      → Requests env start w
      → Requests env start (read_file env id path w).1
  writes :
      {w : World} (id path content : Text)
      → Requests env start w
      → Requests env start (write_file env id path content w).1
  creates :
      {w : World} (id name type path : Text)
      → Requests env start w
      → Requests env start (create_file env id name type path w).1
  deletes :
      {w : World} (id path : Text)
      → Requests env start w
      → Requests env start (delete_file env id path w).1
  renames :
      {w : World} (id old new : Text)
      → Requests env start w
      → Requests env start (rename_file env id old new w).1
  compresses :
      {w : World} (id path name : Text)
      → Requests env start w
      → Requests env start (compress_file env id path name w).1
  decompresses :
      {w : World} (id path : Text)
      → Requests env start w
      → Requests env start (decompress_file env id path w).1
  watches :
      {w : World} (id : Text) → Requests env start w → Requests env start (read_console env id w).1

-- Where it holds of all calls before, then after any run of the requests for files and consoles it
-- holds of every call of an agent: what a call reads, writes or deletes, and the name of what it makes,
-- is a text that nowhere has ".." and does not begin with "/", and neither name of a renaming has
-- "..". The directory of what is made, and what is listed, compressed or decompressed, may be any text.
pub Requests-AreInside :
    {env : Env} {start w : World} → AreInside start → Requests env start w → AreInside w
unfolding list_files read_file create_file delete_file compress_file decompress_file
Requests-AreInside k here = k
Requests-AreInside k (lists {w} id path more) =
    (forward-AreInside _ id (file_list path) tt).at w (Requests-AreInside k more)
Requests-AreInside k (reads {w} id path more) =
    (forward_inside-AreInside _ id _ path (file_read path) (is_outside-IsBelow path)).at w
      (Requests-AreInside k more)
Requests-AreInside k (writes {w} id path content more) =
    (write_file-AreInside _ id path content).at w (Requests-AreInside k more)
Requests-AreInside k (creates {w} id name type path more) =
    (forward_inside-AreInside _ id _ name (file_create name type path) (is_outside-IsBelow name)).at
      w (Requests-AreInside k more)
Requests-AreInside k (deletes {w} id path more) =
    (forward_inside-AreInside _ id _ path (file_delete path) (is_outside-IsBelow path)).at w
      (Requests-AreInside k more)
Requests-AreInside k (renames {w} id old new more) =
    (rename_file-AreInside _ id old new).at w (Requests-AreInside k more)
Requests-AreInside k (compresses {w} id path name more) =
    (forward-AreInside _ id (file_compress path name) tt).at w (Requests-AreInside k more)
Requests-AreInside k (decompresses {w} id path more) =
    (forward-AreInside _ id (file_decompress path) tt).at w (Requests-AreInside k more)
Requests-AreInside k (watches {w} id more) =
    (read_console-AreInside _ id).at w (Requests-AreInside k more)
