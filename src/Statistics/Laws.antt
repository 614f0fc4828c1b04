-- ===== src/Statistics/Laws.antt =====
-- What a tick of the collector leaves alone, and what it makes of a status.
use troxe_host.Common.{
  Option, none, some, List, [], ◌∷◌, Text, codes, text_eq, ◌≡◌, ◌≢◌, refl, ◌∙◌, All, Bool-cases,
  Option-cases, inl, inr,
}
use troxe_host.Db.{ServerRow, ServerStatus}
use troxe_host.Db.Table.{select_where}
use troxe_host.Agent.{NodeInfo, Sample, AgentResponse, accepted, refused, stats}
use troxe_host.Effects.{World, Env, gets, pure, throw, modify, ◌>>=◌}
use troxe_host.Effects.Keeps.{Keeps, Keeps-bind, Keeps-try_catch, Keeps-pure, Keeps-gets}
use troxe_host.Workers.Steps.{find_server, agent_post}
use troxe_host.Workers.Tables.{find_server-update_server_ne}
use troxe_host.Statistics.{
  CpuColumn, or_text, status_text, reported_status, insert_row, follow_status, follow, note_sample,
  note_answer, collect_on, collect, collect_all, is_running, tick,
}

-- the row of one server
pub record SameRow (other : Text) (row : Option ServerRow) (w : World) : Type 0 where
  pub same : find_server other w.db ≡ row

module _ {other : Text} {row : Option ServerRow} where
  insert_row-SameRow :
      (c : CpuColumn) (id : Text) (a : Sample) → Keeps (SameRow other row) (insert_row c id a)
  unfolding insert_row gets throw modify ◌>>=◌ find_server
  insert_row-SameRow c id a = record {
    at = λ w h. elim (Bool-cases (c.takes (or_text a.cpu_absolute (codes "0")))) [
      | inl fits ↦ rw fits (record { same = h.same })
      | inr over ↦ rw over h
    ];
  }

  follow_status-SameRow :
      (id : Text) (old new : ServerStatus)
      → id ≢ other
      → Keeps (SameRow other row) (follow_status id old new)
  unfolding follow_status modify pure
  follow_status-SameRow id old new apart = record {
    at = λ w h. elim (Bool-cases (text_eq (status_text new) (status_text old))) [
      | inl unchanged ↦ rw unchanged h
      | inr changed ↦ rw changed (record {
        same = find_server-update_server_ne id other _ w.db apart (λ r. refl) ∙ h.same;
      })
    ];
  }

  follow-SameRow :
      (id : Text) (old : ServerStatus) (state : Option Text)
      → id ≢ other
      → Keeps (SameRow other row) (follow id old state)
  unfolding follow
  follow-SameRow id old none apart = Keeps-pure tt
  follow-SameRow id old (some state) apart = elim (Option-cases (reported_status state)) [
    | inl unknown ↦ rw (unknown, follow) (Keeps-pure tt)
    | inr (new, known) ↦ rw (known, follow) (follow_status-SameRow id old new apart)
  ]

  agent_post-SameRow :
      (env : Env) (node : NodeInfo) (id : Text)
      → Keeps (SameRow other row) (agent_post env node id stats)
  unfolding agent_post
  agent_post-SameRow env node id = record { at = λ w h. record { same = h.same } }

  note_sample-SameRow :
      (c : CpuColumn) (s : ServerRow) (sample : Option Sample)
      → s.id ≢ other
      → Keeps (SameRow other row) (note_sample c s sample)
  unfolding note_sample
  note_sample-SameRow c s none apart = Keeps-pure tt
  note_sample-SameRow c s (some a) apart =
      Keeps-bind _ _ (insert_row-SameRow c s.id a) (λ _. follow-SameRow s.id s.status a.state apart)

  note_answer-SameRow :
      (c : CpuColumn) (s : ServerRow) (resp : AgentResponse)
      → s.id ≢ other
      → Keeps (SameRow other row) (note_answer c s resp)
  unfolding note_answer
  note_answer-SameRow c s (refused status e) apart = Keeps-pure tt
  note_answer-SameRow c s (accepted d) apart = note_sample-SameRow c s d.stats apart

  collect_on-SameRow :
      (env : Env) (c : CpuColumn) (s : ServerRow) (node : Option NodeInfo)
      → s.id ≢ other
      → Keeps (SameRow other row) (collect_on env c s node)
  unfolding collect_on
  collect_on-SameRow env c s none apart = Keeps-pure tt
  collect_on-SameRow env c s (some node) apart =
      Keeps-bind _ _ (agent_post-SameRow env node s.id) (λ resp. note_answer-SameRow c s resp apart)

  collect-SameRow :
      (env : Env) (c : CpuColumn) (s : ServerRow)
      → s.id ≢ other
      → Keeps (SameRow other row) (collect env c s)
  unfolding collect
  collect-SameRow env c s apart =
      Keeps-bind _ _ (Keeps-gets _) (λ node. collect_on-SameRow env c s node apart)

  collect_all-SameRow :
      (env : Env) (c : CpuColumn) (rows : List ServerRow)
      → All (λ (s : ServerRow). s.id ≢ other) rows
      → Keeps (SameRow other row) (collect_all env c rows)
  unfolding collect_all
  collect_all-SameRow env c [] apart = Keeps-pure tt
  collect_all-SameRow env c (s ∷ rest) (apart, later) =
      Keeps-bind _ _ (Keeps-try_catch _ _ (collect-SameRow env c s apart) (λ err. Keeps-pure tt))
        (λ _. collect_all-SameRow env c rest later)

-- A tick leaves the row of a server alone that no running server shares its id with, whatever the
-- agents report.
pub tick-other :
    (env : Env) (c : CpuColumn) (other : Text) (w : World)
    → All (λ (s : ServerRow). s.id ≢ other) (select_where is_running w.db.servers)
    → find_server other (tick env c w).1.db ≡ find_server other w.db
unfolding tick gets ◌>>=◌
tick-other env c other w apart =
    ((collect_all-SameRow env c (select_where is_running w.db.servers) apart).at w
      (record { same = refl })).same
