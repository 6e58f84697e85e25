-- ===== src/Edge/Hosting/Accepts.antt =====
-- A dial to a hosting connection, for an id of the router's that is free and for one that is in use.
use sdk_golang.Common.{
  ℕ, suc, ◌≡◌, refl, ap, ◌∙◌, ◌⊎◌, true, false, not, ◌||◌, Option, none, some, ◌==◌, if◌then◌else◌,
}
use sdk_golang.Common.Text.{Text, str_eq}
use sdk_golang.Common.Map.{Distinct}
use sdk_golang.Common.Outcome.{Outcome, ok, err, panic, stuck, ◌>>=◌}
use sdk_golang.Edge.Mux.{ConcurrentMap, AddError, id_in_use, add, get_next_id, has_conn}
use sdk_golang.Edge.Mux.Registry.{add_lem, remove-get}
use sdk_golang.Edge.Hosting.{
  DialRequest, HostEnv, Child, HostConn, report, close_child, refuse, setup_child, add_child,
  new_child_connection, id_already_in_use, dial_failed, invalid_token,
}
use sdk_golang.Edge.Hosting.Dials.{replies, is_handed, some_peer_closed, sink_of, same}

module _ {Sink : Type 0} (cm : ConcurrentMap Sink) (child_sink : ℕ → Sink) where
  -- What a dial under an id comes to.
  pub record Answered (id : ℕ) (before after : HostConn cm child_sink) : Type 0 where
    pub others :
        (j : ℕ) → (id == j) ≡ false → sink_of cm child_sink j after ≡ sink_of cm child_sink j before
    pub own :
        ((is_handed id after.events || some_peer_closed id after.events) ≡ true)
          × (sink_of cm child_sink id after ≡ some (child_sink id))
        ⊎ (sink_of cm child_sink id after ≡ none)
    pub replied :
        (replies after.events ≡ suc (replies before.events))
        ⊎ (before.manual_start ≡ true)
          × (is_handed id after.events ≡ true)
          × (replies after.events ≡ replies before.events)

  new_child-provided :
      (env : HostEnv) (d : DialRequest) (id : ℕ) (h : HostConn cm child_sink)
      → str_eq h.token d.token ≡ true
      → d.router_provided_id ≡ some id
      → new_child_connection cm child_sink env d h ≡ ok (add_child cm child_sink env true d id h)
  unfolding new_child_connection
  new_child-provided env d id h known is_id =
      let own_id : Outcome AddError (HostConn cm child_sink) = get_next_id cm h.mux >>= λ r.
      ok (add_child cm child_sink env false d r.0 (record h { mux = r.1 })) in
      let by_id = λ (o : Option ℕ). elim o as (λ o. Outcome AddError (HostConn cm child_sink)) [
        | none ↦ own_id
        | some i ↦ ok (add_child cm child_sink env true d i h)
      ] in
      ap
        (λ b.
          if not b
          then ok (report cm child_sink (dial_failed invalid_token) h)
          else by_id d.router_provided_id)
        known
      ∙ ap by_id is_id

  -- A dial with the right token and an id from the router that is in use, on a multiplexer that is
  -- not closed and has distinct ids, is answered by one reply, and the id has no connection in the
  -- multiplexer afterwards.
  pub new_child_connection-evicts :
      (env : HostEnv) (d : DialRequest) (id : ℕ) (v : Sink) (h : HostConn cm child_sink)
      → Distinct (cm.items h.mux.sinks)
      → h.mux.closed ≡ false
      → str_eq h.token d.token ≡ true
      → d.router_provided_id ≡ some id
      → sink_of cm child_sink id h ≡ some v
      → (after : HostConn cm child_sink) × (new_child_connection cm child_sink env d h ≡ ok after)
        × (sink_of cm child_sink id after ≡ none)
        × (replies after.events ≡ suc (replies h.events))
  unfolding add_child refuse close_child has_conn
  new_child_connection-evicts env d id v h distinct running known is_id used =
      let c : Child = record { id = id; has_xg = false; closed = false } in
      let refusal = refuse cm child_sink id_already_in_use c h in
      let fails : add cm id (child_sink id) h.mux ≡ err id_in_use =
        (add_lem cm id id (child_sink id) h.mux).0 ∙ rw (running, used) refl in
      let is_refusal : add_child cm child_sink env true d id h ≡ refusal =
        ap
          (λ o. elim o as (λ o. HostConn cm child_sink) [
            | ok m ↦ setup_child cm child_sink env true d c (record h { mux = m })
            | err e ↦ refusal
            | panic ↦ h
            | stuck ↦ h
          ])
          fails in
      (
        refusal,
        new_child-provided env d id h known is_id ∙ ap ok is_refusal,
        remove-get cm id id h.mux distinct
            ∙ ap (λ b. if b then none else sink_of cm child_sink id h) (same cm child_sink id),
        refl,
      )
