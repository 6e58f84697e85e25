-- ===== src/Edge/Mux/Registry.antt =====
-- Adding, finding, removing and closing connections.
use sdk_golang.Common.{
  ℕ, ◌≡◌, ◌+◌, ◌<◌, ◌^◌, refl, sym, ap, ◌∙◌, inl, inr, Bool, true, false, not, Option, none, some,
  ◌==◌, if◌then◌else◌, length, arith, Bool-cases, Option-cases,
}
use sdk_golang.Common.Map.{lookup, insert, Distinct, lookup-insert, lookup-erase}
use sdk_golang.Common.Outcome.{ok, err, ◌>>=◌}
use sdk_golang.Xgress.Channel.{Message, Channel, get_header}
use sdk_golang.Edge.Mux.{
  ConcurrentMap, ConnMux, mux_closed, id_in_use, is_none, add, remove_by_conn_id, has_conn,
  get_next_id, handle_receive, receive_for, receive_found, Reaction, accepted, conn_id_header,
}
use sdk_golang.Edge.Mux.NextId.{Fresh, get_next_id-Fresh}

module _ {V : Type 0} (cm : ConcurrentMap V) where
  unfoldable pub stored : ℕ → V → ConnMux cm → ConnMux cm
  stored id sink mux = record mux { sinks = (cm.set_if_absent id sink mux.sinks).1 }

  pub add_absent :
      (id : ℕ) (sink : V) (mux : ConnMux cm)
      → mux.closed ≡ false
      → lookup id (cm.items mux.sinks) ≡ none
      → add cm id sink mux ≡ ok (stored id sink mux)
  unfolding add stored
  add_absent id sink mux running absent =
      let (is_new, _) = cm.set_if_absent-items id sink mux.sinks in
      let new : (cm.set_if_absent id sink mux.sinks).0 ≡ true = is_new ∙ ap is_none absent in
      rw (running, new) refl

  pub get_stored :
      (id j : ℕ) (sink : V) (mux : ConnMux cm)
      → lookup id (cm.items mux.sinks) ≡ none
      → cm.get j (stored id sink mux).sinks ≡ (if id == j then some sink else cm.get j mux.sinks)
  unfolding stored
  get_stored id j sink mux absent =
      let (_, entries) = cm.set_if_absent-items id sink mux.sinks in
      let is_items : cm.items (cm.set_if_absent id sink mux.sinks).1
          ≡ insert id sink (cm.items mux.sinks) =
        entries
        ∙ ap (λ o. if is_none o then insert id sink (cm.items mux.sinks) else cm.items mux.sinks)
            absent in
      cm.get-items j (cm.set_if_absent id sink mux.sinks).1
      ∙ ap (lookup j) is_items
      ∙ lookup-insert id j sink (cm.items mux.sinks)
      ∙ ap (λ o. if id == j then some sink else o) (sym (cm.get-items j mux.sinks))

  add-if :
      (id : ℕ) (sink : V) (mux : ConnMux cm)
      → add cm id sink mux ≡ (
          if mux.closed
          then err mux_closed
          else if (cm.set_if_absent id sink mux.sinks).0
          then ok (stored id sink mux)
          else err id_in_use)
  unfolding add stored
  add-if id sink mux = refl

  stored-is_new :
      (id : ℕ) (sink : V) (mux : ConnMux cm)
      → (cm.set_if_absent id sink mux.sinks).0 ≡ is_none (cm.get id mux.sinks)
  stored-is_new id sink mux =
      (cm.set_if_absent-items id sink mux.sinks).0 ∙ ap is_none (sym (cm.get-items id mux.sinks))

  get_stored_used :
      (id j : ℕ) (sink v : V) (mux : ConnMux cm)
      → lookup id (cm.items mux.sinks) ≡ some v
      → cm.get j (stored id sink mux).sinks ≡ cm.get j mux.sinks
  unfolding stored
  get_stored_used id j sink v mux found =
      let (_, entries) = cm.set_if_absent-items id sink mux.sinks in
      cm.get-items j (cm.set_if_absent id sink mux.sinks).1
      ∙ ap (lookup j) (
          entries
          ∙ ap (λ o. if is_none o then insert id sink (cm.items mux.sinks) else cm.items mux.sinks)
              found)
      ∙ sym (cm.get-items j mux.sinks)

  swapped : {A : Type 0} (b : Bool) (x y : A) → (if b then x else y) ≡ (if not b then y else x)
  swapped true x y = refl
  swapped false x y = refl

  pub add_lem :
      (id j : ℕ) (sink : V) (mux : ConnMux cm)
      → (add cm id sink mux ≡ (
          if mux.closed
          then err mux_closed
          else if has_conn cm id mux
          then err id_in_use
          else ok (stored id sink mux)))
        × (cm.get j (stored id sink mux).sinks ≡ (
            if has_conn cm id mux
            then cm.get j mux.sinks
            else if id == j
            then some sink
            else cm.get j mux.sinks))
  unfolding has_conn
  add_lem id j sink mux = (
    add-if id sink mux
        ∙ ap (λ o. if mux.closed then err mux_closed else o)
            (ap (λ b. if b then ok (stored id sink mux) else err id_in_use)
                (stored-is_new id sink mux)
              ∙ swapped (is_none (cm.get id mux.sinks)) (ok (stored id sink mux)) (err id_in_use)),
    elim (Option-cases (lookup id (cm.items mux.sinks))) [
      | inl absent ↦ rw (cm.get-items id mux.sinks, absent) (get_stored id j sink mux absent)
      | inr (v, found) ↦
          rw (cm.get-items id mux.sinks, found) (get_stored_used id j sink v mux found)
    ],
  )

  -- In a mux with distinct ids, after RemoveByConnId the id has no sink, and each other id has what
  -- it had.
  pub remove-get :
      (id j : ℕ) (mux : ConnMux cm)
      → Distinct (cm.items mux.sinks)
      → cm.get j (remove_by_conn_id cm id mux).sinks
        ≡ (if id == j then none else cm.get j mux.sinks)
  unfolding remove_by_conn_id
  remove-get id j mux d =
      cm.get-items j (cm.remove id mux.sinks)
      ∙ ap (lookup j) (cm.remove-items id mux.sinks)
      ∙ lookup-erase j id (cm.items mux.sinks) d
      ∙ ap (λ o. if id == j then none else o) (sym (cm.get-items j mux.sinks))

  -- A reaction that gives way to the sink of `id` where the message names `id`.
  abbrev pub redirect : ℕ → V → Message → Option ℕ → Reaction V → Reaction V
  redirect id sink msg none r = r
  redirect id sink msg (some j) r = if id == j then accepted id sink msg else r

  receive_for-stored :
      (c : Channel) (id n : ℕ) (sink : V) (mux : ConnMux cm) (msg : Message) (header : Option ℕ)
      → lookup id (cm.items mux.sinks) ≡ none
      → receive_for cm c header (stored id sink (record mux { next_id = n })) msg
        ≡ redirect id sink msg header (receive_for cm c header mux msg)
  unfolding receive_for receive_found
  receive_for-stored c id n sink mux msg none absent = refl
  receive_for-stored c id n sink mux msg (some j) absent = elim (Bool-cases (id == j)) [
    | inl here ↦
        let key : id ≡ j = ground (arith, here) in
        rw (get_stored id j sink (record mux { next_id = n }) absent, here)
          (ap (λ x. accepted x sink msg) (sym key))
    | inr there ↦ rw (get_stored id j sink (record mux { next_id = n }) absent, there) refl
  ]

  -- On a mux that is not closed and has a free id in its range, GetNextId and then Add return.
  -- After that the new sink gets the messages that name its id, and every other message goes where
  -- it went before.
  pub get_next_id-add-receive :
      (c : Channel) (mux : ConnMux cm) (sink : V) (msg : Message)
      → mux.closed ≡ false
      → mux.next_id < mux.max_id
      → mux.min_id + 1 + length (cm.items mux.sinks) < mux.max_id
      → mux.max_id < 2 ^ 31
      → (id : ℕ) × (after : ConnMux cm) × ((get_next_id cm mux >>= λ r. add cm r.0 sink r.1)
          ≡ ok after)
        × (handle_receive cm c after msg
            ≡ redirect id sink msg
                (get_header c.uint32_of_bytes conn_id_header msg)
                (handle_receive cm c mux msg))
  unfolding handle_receive
  get_next_id-add-receive c mux sink msg running below room small =
      let r : Fresh cm mux (get_next_id cm mux) = get_next_id-Fresh cm mux below room small in
      let counted : ConnMux cm = record mux { next_id = r.id } in
      (
        r.id,
        stored r.id sink counted,
        rw r.returns (add_absent r.id sink counted running r.free),
        receive_for-stored c r.id r.id sink mux msg
            (get_header c.uint32_of_bytes conn_id_header msg) r.free,
      )
