-- ===== src/Admin/Heartbeat/Laws.antt =====
-- What the crashed servers of a report do to the table of servers.
use mathlib.Core.Option
use mathlib.Core.Option.{some-injective}
use mathlib.Core.Path.{subst}
use troxe_host.Common.{
  ℕ, ◌+◌, ◌≤◌, true, false, not, ◌&&◌, Option, none, some, List, [], ◌∷◌, Text, text_eq,
  text_eq_iff, ◌≡◌, refl, sym, ◌∙◌, ap, arith, Bool-cases, inl, inr, if◌then◌else◌, any,
}
use troxe_host.Db.{Db, ServerRow, crashed, UserRow}
use troxe_host.Db.Table.{find_where, find_where_sound, update_where, count_where}
use troxe_host.Db.Counting.{
  count_where-update_where, find_where-update_each, find_where-none_counted,
}
use troxe_host.Effects.{World, Env, ok, gets, pure, modify, send_mail, try_catch, ◌>>=◌}
use troxe_host.Effects.Runs.{handled-ok}
use troxe_host.Effects.Keeps.{Keeps, Keeps-try_catch, Keeps-pure}
use troxe_host.Workers.Steps.{is_server, should_notify, log_event}
use troxe_host.Admin.Heartbeat.{
  is_crashed, is_placed_at, note_crash, notify_crashed, report_found, report_crashes,
}

abbrev crash : ℕ → ServerRow → ServerRow
crash now s = record s {
  status = crashed;
  crash_count = s.crash_count + 1;
  last_crashed_at = some now;
}

-- A row of the node that is in the report, and that is not yet crashed, is crashed once.
abbrev pub noted : Text → List Text → ℕ → ServerRow → ServerRow
noted node_id ids now s =
    if any (text_eq s.id) ids && text_eq s.node_id node_id && not (is_crashed s.status)
    then crash now s
    else s

abbrev SameServers : List ServerRow → ℕ → World → Type 0
SameServers rows now w = (w.db.servers ≡ rows) × (w.clock ≡ now)

notify_crashed-Keeps :
    (rows : List ServerRow) (now : ℕ) (env : Env) (id : Text) (db : Db) (s : Option ServerRow)
    (u : Option UserRow)
    → Keeps (SameServers rows now) (notify_crashed env id db s u)
unfolding notify_crashed send_mail modify pure
notify_crashed-Keeps rows now env id db (some s) (some owner) = record {
  at = λ w k. elim (Bool-cases (should_notify env (λ p. p.email_on_crash) owner.id db)) [
    | inl wanted ↦ rw wanted k
    | inr unwanted ↦ rw unwanted k
  ];
}
notify_crashed-Keeps rows now env id db (some s) none = record { at = λ w k. k }
notify_crashed-Keeps rows now env id db none u = record { at = λ w k. k }

-- the table and the clock after the statements for one reported server
report_found-servers :
    (env : Env) (id : Text) (s : ServerRow) (w : World)
    → SameServers (note_crash id w.clock w.db).servers w.clock (report_found env id (some s) w).1
unfolding report_found gets modify log_event ◌>>=◌
report_found-servers env id s w =
    (Keeps-try_catch _ _ (notify_crashed-Keeps _ w.clock env id _ _ _) (λ err. Keeps-pure tt)).at _
      (refl, refl)

report_found-ok :
    (env : Env) (id : Text) (found : Option ServerRow) (w : World)
    → (report_found env id found w).0 ≡ ok tt
unfolding report_found gets modify log_event ◌>>=◌ try_catch pure
report_found-ok env id none w = refl
report_found-ok env id (some s) w = handled-ok _ _

-- the table after the statements for one reported server, from what the query of the code finds
abbrev after_one : Text → ℕ → Option ServerRow → List ServerRow → List ServerRow
after_one id now none rows = rows
after_one id now (some s) rows =
    update_where (λ (r : ServerRow). is_server id r && not (is_crashed r.status)) (crash now) rows

-- what these statements do to one row
abbrev changed : Text → ℕ → Option ServerRow → ServerRow → ServerRow
changed id now none s = s
changed id now (some r) s = if is_server id s && not (is_crashed s.status) then crash now s else s

abbrev pub IsDistinct : List ServerRow → Type 0
IsDistinct rows = (id : Text) → count_where (is_server id) rows ≤ 1

-- Where no other row has its id, a server is placed at a node exactly where its row says so.
placed-find :
    (id node_id : Text) (rows : List ServerRow) {s : ServerRow}
    → count_where (is_server id) rows ≤ 1
    → find_where (is_server id) rows ≡ some s
    → find_where (is_placed_at id node_id) rows
      ≡ (if text_eq s.node_id node_id then some s else none)
unfolding find_where count_where
placed-find id node_id [] once found = cc found
placed-find id node_id (r ∷ rows) {s} once found = elim (Bool-cases (is_server id r)) [
  | inl hit ↦
      let same : r ≡ s = some-injective _ _ (rw hit at found) in
      let counted : 1 + count_where (is_server id) rows ≤ 1 = rw hit at once in
      let gone : find_where (is_placed_at id node_id) rows ≡ none =
        find_where-none_counted (is_placed_at id node_id) (is_server id) rows
          (λ (x : ServerRow) both. ground (arith, both)) (omega (arith, counted)) in
      rw (hit, gone, same) refl
  | inr miss ↦ rw miss (placed-find id node_id rows (omega (arith, once)) (rw miss at found))
]

noted-other :
    (id node_id : Text) (now : ℕ) (s : ServerRow)
    → text_eq s.id id ≡ false
    → ((if is_server id s && not (is_crashed s.status) then crash now s else s) ≡ s)
      × (noted node_id (id ∷ []) now s ≡ s)
noted-other id node_id now s other = (ground (arith, other), ground (arith, other))

noted-here :
    (id node_id : Text) (now : ℕ) (s : ServerRow)
    → text_eq s.id id ≡ true
    → text_eq s.node_id node_id ≡ true
    → (if is_server id s && not (is_crashed s.status) then crash now s else s)
      ≡ noted node_id (id ∷ []) now s
noted-here id node_id now s hit here = ground (arith, hit, here)

noted-away :
    (id node_id : Text) (now : ℕ) (s : ServerRow)
    → text_eq s.node_id node_id ≡ false
    → noted node_id (id ∷ []) now s ≡ s
noted-away id node_id now s away = ground (arith, away)

noted-twice :
    (node_id id : Text) (ids : List Text) (now : ℕ) (s : ServerRow)
    → noted node_id ids now (noted node_id (id ∷ []) now s) ≡ noted node_id (id ∷ ids) now s
noted-twice node_id id ids now s = ground arith

after_one-find :
    (id now_id : Text) (now : ℕ) (found : Option ServerRow) (rows : List ServerRow) {s : ServerRow}
    → find_where (is_server now_id) rows ≡ some s
    → find_where (is_server now_id) (after_one id now found rows) ≡ some (changed id now found s)
after_one-find id now_id now none rows there = there
after_one-find id now_id now (some r) rows there =
    find_where-update_each (is_server now_id) _ (crash now) rows (λ x. refl)
    ∙ ap (Option.map _) there

-- the two cases of the next lemma: the row has the id of the report, or another
placed_noted :
    (id node_id : Text) (now : ℕ) (s : ServerRow) (rows : List ServerRow)
    → text_eq s.id id ≡ true
    → find_where (is_placed_at id node_id) rows
      ≡ (if text_eq s.node_id node_id then some s else none)
    → some (changed id now (find_where (is_placed_at id node_id) rows) s)
      ≡ some (noted node_id (id ∷ []) now s)
placed_noted id node_id now s rows hit placed = elim (Bool-cases (text_eq s.node_id node_id)) [
  | inl here ↦
      let at : find_where (is_placed_at id node_id) rows ≡ some s = placed ∙ rw here refl in
      rw at (ap (λ x. some x) (noted-here id node_id now s hit here))
  | inr away ↦
      let at : find_where (is_placed_at id node_id) rows ≡ none = placed ∙ rw away refl in
      rw at (ap (λ x. some x) (sym (noted-away id node_id now s away)))
]

missed_noted :
    (id node_id : Text) (now : ℕ) (s : ServerRow) (found : Option ServerRow)
    → text_eq s.id id ≡ false
    → some (changed id now found s) ≡ some (noted node_id (id ∷ []) now s)
missed_noted id node_id now s none miss =
    ap (λ x. some x) (sym (noted-other id node_id now s miss).1)
missed_noted id node_id now s (some r) miss =
    let (same, kept) = noted-other id node_id now s miss in ap (λ x. some x) (same ∙ sym kept)

one-noted :
    (id node_id other : Text) (now : ℕ) (rows : List ServerRow) {s : ServerRow}
    → IsDistinct rows
    → find_where (is_server other) rows ≡ some s
    → find_where
        (is_server other)
        (after_one id now (find_where (is_placed_at id node_id) rows) rows)
      ≡ some (noted node_id (id ∷ []) now s)
one-noted id node_id other now rows {s} distinct there =
    after_one-find id other now (find_where (is_placed_at id node_id) rows) rows there
    ∙ elim (Bool-cases (text_eq s.id id)) [
      | inl hit ↦ placed_noted id node_id now s rows hit (
          placed-find id node_id rows (distinct id) (
            subst (λ x. find_where (is_server x) rows ≡ some s)
              (sym ((text_eq_iff s.id other).0 (find_where_sound (is_server other) rows there))
                ∙ (text_eq_iff s.id id).0 hit)
              there))
      | inr miss ↦ missed_noted id node_id now s (find_where (is_placed_at id node_id) rows) miss
    ]

after_one-IsDistinct :
    (id : Text) (now : ℕ) (found : Option ServerRow) (rows : List ServerRow)
    → IsDistinct rows
    → IsDistinct (after_one id now found rows)
after_one-IsDistinct id now none rows distinct = distinct
after_one-IsDistinct id now (some r) rows distinct = λ other. omega (
  arith,
  distinct other,
  count_where-update_where (is_server other)
      (λ (r : ServerRow). is_server id r && not (is_crashed r.status)) (crash now) rows
      (λ x hit. refl),
)

-- the state after one round of the loop
report_found-after :
    (env : Env) (id : Text) (found : Option ServerRow) (w : World)
    → SameServers (after_one id w.clock found w.db.servers) w.clock (report_found env id found w).1
unfolding note_crash report_found pure
report_found-after env id none w = (refl, refl)
report_found-after env id (some s) w = report_found-servers env id s w

-- After the loop over the crashed servers of a report, where no two servers have one id, the row of a
-- server is crashed, with its count one higher and the time of the clock, where the report names it,
-- it stands on the node that reports and it was not crashed before. Any other row is as it was. A
-- server that the report names twice is counted once.
pub report_crashes-noted :
    (env : Env) (node_id : Text) (ids : List Text) (w : World) (other : Text) {s : ServerRow}
    → IsDistinct w.db.servers
    → find_where (is_server other) w.db.servers ≡ some s
    → find_where (is_server other) (report_crashes env node_id ids w).1.db.servers
      ≡ some (noted node_id ids w.clock s)
unfolding report_crashes gets pure ◌>>=◌
report_crashes-noted env node_id [] w other distinct there = there
report_crashes-noted env node_id (id ∷ ids) w other {s} distinct there =
    let found = find_where (is_placed_at id node_id) w.db.servers in
    let after : World = (report_found env id found w).1 in
    let (rows, clock) = report_found-after env id found w in
    let distinct_after : IsDistinct after.db.servers =
      subst IsDistinct (sym rows) (after_one-IsDistinct id w.clock found w.db.servers distinct) in
    let there_after : find_where (is_server other) after.db.servers
        ≡ some (noted node_id (id ∷ []) w.clock s) =
      ap (find_where (is_server other)) rows
      ∙ one-noted id node_id other w.clock w.db.servers distinct there in
    rw (report_found-ok env id found w) (
      report_crashes-noted env node_id ids after other distinct_after there_after
      ∙ rw clock (ap (λ x. some x) (noted-twice node_id id ids w.clock s)))
