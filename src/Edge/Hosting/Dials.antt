-- ===== src/Edge/Hosting/Dials.antt =====
-- What becomes of the multiplexer and of the caller of a dial.
use sdk_golang.Common.{
  ℕ, suc, ◌≡◌, refl, sym, ap, ◌∙◌, inl, inr, ◌⊎◌, Bool, true, false, ◌||◌, Option, none, some, List,
  [], ◌∷◌, ◌==◌, if◌then◌else◌, ==_iff,
}
use mathlib.Core.Path.{subst}
use sdk_golang.Common.Map.{Distinct, Distinct-erase}
use sdk_golang.Edge.Mux.{ConcurrentMap, remove_by_conn_id}
use sdk_golang.Edge.Mux.Registry.{remove-get}
use sdk_golang.Edge.Hosting.{
  Refusal, HostEvent, dial_failed, dial_success, state_closed, xg_peer_closed, crypto_header,
  handed_over, StartReply, send_error, state_connected, other_reply, HostEnv, Child, started,
  failed, HostConn, report, close_child, refuse, write_header, dial_succeeded, hand_over,
  start_child, no_crypto_session, not_started,
}

-- The replies to dials among the events.
abbrev pub replies : List HostEvent → ℕ
replies [] = 0
replies (dial_failed r ∷ es) = suc (replies es)
replies (dial_success id ∷ es) = suc (replies es)
replies (e ∷ es) = replies es

-- The last event hands over the connection of an id.
abbrev pub is_handed : ℕ → List HostEvent → Bool
is_handed id (handed_over j ∷ es) = id == j
is_handed id es = false

abbrev pub some_peer_closed : ℕ → List HostEvent → Bool
some_peer_closed id [] = false
some_peer_closed id (xg_peer_closed j ∷ es) = id == j || some_peer_closed id es
some_peer_closed id (e ∷ es) = some_peer_closed id es

module _ {Sink : Type 0} (cm : ConcurrentMap Sink) (child_sink : ℕ → Sink) where
  abbrev pub sink_of : ℕ → HostConn cm child_sink → Option Sink
  sink_of j h = cm.get j h.mux.sinks

  -- A child that is handed over, or whose Xgress closes its peer, keeps its place; another child
  -- that ends has none.
  pub record Dialed (id : ℕ) (before after : HostConn cm child_sink) : Type 0 where
    pub distinct : Distinct (cm.items after.mux.sinks)
    pub others : (j : ℕ) → (id == j) ≡ false → sink_of j after ≡ sink_of j before
    pub own :
        ((is_handed id after.events || some_peer_closed id after.events) ≡ true)
          × (sink_of id after ≡ sink_of id before)
        ⊎ (sink_of id after ≡ none)
    pub replied :
        (replies after.events ≡ suc (replies before.events))
        ⊎ (before.manual_start ≡ true)
          × (is_handed id after.events ≡ true)
          × (replies after.events ≡ replies before.events)

  pub same : (id : ℕ) → (id == id) ≡ true
  same id = (==_iff id id).1 refl

  -- A close of the child leaves the others, and takes it away or closes its peer.
  pub record Closed (id : ℕ) (before after : HostConn cm child_sink) : Type 0 where
    distinct : Distinct (cm.items after.mux.sinks)
    others : (j : ℕ) → (id == j) ≡ false → sink_of j after ≡ sink_of j before
    own :
        (some_peer_closed id after.events ≡ true) × (sink_of id after ≡ sink_of id before)
        ⊎ (sink_of id after ≡ none)
    quiet : replies after.events ≡ replies before.events
    manual : after.manual_start ≡ before.manual_start

  removed :
      (id : ℕ) (h : HostConn cm child_sink) (es : List HostEvent)
      → Distinct (cm.items h.mux.sinks)
      → replies es ≡ replies h.events
      → Closed id h (record h { mux = remove_by_conn_id cm id h.mux; events = es })
  unfolding remove_by_conn_id
  removed id h es distinct quiet = record {
    distinct =
        subst Distinct (sym (cm.remove-items id h.mux.sinks))
          (Distinct-erase id (cm.items h.mux.sinks) distinct);
    others = λ j other.
        remove-get cm id j h.mux distinct
        ∙ ap (λ b. if b then none else cm.get j h.mux.sinks) other;
    own = inr (
        remove-get cm id id h.mux distinct
        ∙ ap (λ b. if b then none else cm.get id h.mux.sinks) (same id));
    quiet = quiet;
    manual = refl;
  }

  pub close_child-Closed :
      (notify has_xg : Bool) (id : ℕ) (h : HostConn cm child_sink)
      → Distinct (cm.items h.mux.sinks)
      → Closed id h
          (close_child cm child_sink notify (record { id = id; has_xg = has_xg; closed = false }) h)
  unfolding close_child
  close_child-Closed notify true id h distinct = record {
    distinct = distinct;
    others = λ j other. refl;
    own = inl (ap (λ b. b || some_peer_closed id h.events) (same id), refl);
    quiet = refl;
    manual = refl;
  }
  close_child-Closed true false id h distinct =
      removed id h (state_closed id ∷ h.events) distinct refl
  close_child-Closed false false id h distinct = removed id h h.events distinct refl

  or_true : (a b : Bool) → b ≡ true → (a || b) ≡ true
  or_true true b e = refl
  or_true false b e = e

  -- A child that is closed behind one reply, or in front of it.
  ended :
      (id : ℕ) (before between after : HostConn cm child_sink)
      → ((j : ℕ) → sink_of j between ≡ sink_of j before)
      → replies between.events ≡ suc (replies before.events)
      → Closed id between after
      → Dialed id before after
  ended id before between after unmoved one closed = record {
    distinct = closed.distinct;
    others = λ j other. closed.others j other ∙ unmoved j;
    own = elim closed.own [
      | inl (peer, kept) ↦ inl (or_true (is_handed id after.events) _ peer, kept ∙ unmoved id)
      | inr gone ↦ inr gone
    ];
    replied = inl (closed.quiet ∙ one);
  }

  pub refused :
      (id : ℕ) (reason : Refusal) (before after : HostConn cm child_sink)
      → Closed id before after
      → Dialed id before (report cm child_sink (dial_failed reason) after)
  refused id reason before after closed = record {
    distinct = closed.distinct;
    others = closed.others;
    own = closed.own;
    replied = inl (ap suc closed.quiet);
  }

  handed :
      (id : ℕ) (before : HostConn cm child_sink) (es : List HostEvent)
      → Distinct (cm.items before.mux.sinks)
      → (replies es ≡ suc (replies before.events))
        ⊎ (before.manual_start ≡ true) × (replies es ≡ replies before.events)
      → Dialed id before (record before { events = handed_over id ∷ es })
  handed id before es distinct count = record {
    distinct = distinct;
    others = λ j other. refl;
    own = inl (ap (λ b. b || some_peer_closed id es) (same id), refl);
    replied = elim count [
      | inl one ↦ inl one
      | inr (manual, none_yet) ↦ inr (manual, same id, none_yet)
    ];
  }

  module _ (env : HostEnv) (provided : Bool) (id : ℕ) (has_xg : Bool) (h : HostConn cm child_sink)
      (distinct : Distinct (cm.items h.mux.sinks)) where
    abbrev pub fresh : Child
    fresh = record { id = id; has_xg = has_xg; closed = false }

    abbrev replied_to : HostConn cm child_sink
    replied_to = report cm child_sink (dial_success id) h

    cleaned_up : Dialed id h (close_child cm child_sink true fresh replied_to)
    cleaned_up =
        ended id h replied_to (close_child cm child_sink true fresh replied_to) (λ j. refl) refl
          (close_child-Closed true has_xg id replied_to distinct)

    write_header-Dialed :
        (header : Option (List ℕ))
        → Dialed id h
            (hand_over cm child_sink fresh (write_header cm child_sink env header fresh replied_to))
    unfolding write_header
    write_header-Dialed none = handed id h replied_to.events distinct (inl refl)
    write_header-Dialed (some header) = by_write env.header_written
      where
        by_write :
            (b : Bool)
            → Dialed id h (
                hand_over cm child_sink fresh (
                  if b
                  then (started, report cm child_sink (crypto_header header) replied_to)
                  else (failed true, close_child cm child_sink true fresh replied_to)))
        by_write true = handed id h (crypto_header header ∷ replied_to.events) distinct (inl refl)
        by_write false = cleaned_up

    pub refuse-Dialed : (reason : Refusal) → Dialed id h (refuse cm child_sink reason fresh h)
    unfolding refuse
    refuse-Dialed reason =
        refused id reason h (close_child cm child_sink false fresh h)
          (close_child-Closed false has_xg id h distinct)

    dial_succeeded-Dialed :
        (reply : StartReply) (header : Option (List ℕ))
        → Dialed id h (
            hand_over cm child_sink fresh
              (dial_succeeded cm child_sink env reply provided header fresh h))
    unfolding dial_succeeded
    dial_succeeded-Dialed reply header = by_reply reply provided
      where
        by_reply :
            (reply : StartReply) (provided : Bool)
            → Dialed id h (
                hand_over cm child_sink fresh
                  (dial_succeeded cm child_sink env reply provided header fresh h))
        by_reply send_error provided = refuse-Dialed not_started
        by_reply state_connected provided = write_header-Dialed header
        by_reply other_reply true = write_header-Dialed header
        by_reply other_reply false = cleaned_up

    pub start_child-Dialed :
        (header : Option (Option (List ℕ)))
        → Dialed id h (start_child cm child_sink env provided header fresh h)
    unfolding start_child
    start_child-Dialed none = refuse-Dialed no_crypto_session
    start_child-Dialed (some header) = by_start h.manual_start refl
      where
        by_start :
            (b : Bool)
            → h.manual_start ≡ b
            → Dialed id h (
                if b
                then report cm child_sink (handed_over id) h
                else hand_over cm child_sink fresh
                    (dial_succeeded cm child_sink env env.start_reply provided header fresh h))
        by_start true manual = handed id h h.events distinct (inr (manual, refl))
        by_start false manual = dial_succeeded-Dialed env.start_reply header
