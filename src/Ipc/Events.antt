-- ===== src/Ipc/Events.antt =====
-- Events for the clients of the IPC server: ipc_has_event_listeners, ipc_send_event and the guard of
-- the functions ipc_event_workspace, ipc_event_window and so on of sway/ipc-server.c. The JSON text
-- of an event is given. The clients are a list of different objects, so that ipc_client_disconnect
-- deletes the one at the index at which ipc_send_event stands.
use Prim.Native.Nat.{bit_and}
use swirl.Prelude.{
  ℕ, zero, suc, ◌≡◌, refl, ◌∙◌, sym, ap, arith, ◌==◌, Bool, true, false, Option, none, some, List,
  [], ◌∷◌, ◌++◌, inl, inr, Bool-cases, Option-cases, get_elem?, set, take, drop, length,
  length-append, append_assoc, if◌then◌else◌,
}
use swirl.Ipc.Message.{Bytes}
use swirl.Ipc.Client.{IpcClient, ipc_send_reply, event_mask}

-- The test `(client->subscribed_events & event_mask(event)) != 0`, negated.
abbrev pub not_subscribed : ℕ → IpcClient → Bool
not_subscribed event client = bit_and client.subscribed_events (event_mask event) == 0

-- Lists around an index.
module _ {A : Type 0} where
  get_elem?-append_end : (xs ys : List A) (y : A) → get_elem? (xs ++ y ∷ ys) (length xs) ≡ some y
  get_elem?-append_end [] ys y = refl
  get_elem?-append_end (x ∷ xs) ys y = get_elem?-append_end xs ys y

  get_elem?-end : (xs : List A) → get_elem? xs (length xs) ≡ none
  get_elem?-end [] = refl
  get_elem?-end (x ∷ xs) = get_elem?-end xs

  set-append_end :
      (xs ys : List A) (y z : A) → set (xs ++ y ∷ ys) (length xs) z ≡ (xs ++ z ∷ []) ++ ys
  set-append_end [] ys y z = refl
  set-append_end (x ∷ xs) ys y z = ap (λ t. x ∷ t) (set-append_end xs ys y z)

  abbrev delete_at : ℕ → List A → List A
  delete_at i xs = take i xs ++ drop (suc i) xs

  delete_at-append_end : (xs ys : List A) (y : A) → delete_at (length xs) (xs ++ y ∷ ys) ≡ xs ++ ys
  delete_at-append_end [] ys y = refl
  delete_at-append_end (x ∷ xs) ys y = ap (λ t. x ∷ t) (delete_at-append_end xs ys y)

-- `has_memory` is whether `realloc` succeeds for a client.
module _ (has_memory : IpcClient → Bool) (event : ℕ) (text : Bytes) where
  unfoldable pub ipc_has_event_listeners : List IpcClient → Bool
  ipc_has_event_listeners [] = false
  ipc_has_event_listeners (client ∷ clients) =
      if not_subscribed event client then ipc_has_event_listeners clients else true

  -- The loop of ipc_send_event from the index `i` on; after a client that was disconnected, the same
  -- index is taken again.
  unfoldable send_from : ℕ → ℕ → List IpcClient → List IpcClient
  send_from zero i clients = clients
  send_from (suc rounds) i clients = elim (get_elem? clients i) [
    | none ↦ clients
    | some client ↦ elim (not_subscribed event client) [
      | true ↦ send_from rounds (suc i) clients
      | false ↦ elim (ipc_send_reply (has_memory client) client event text) [
        | none ↦ send_from rounds i (delete_at i clients)
        | some client' ↦ send_from rounds (suc i) (set clients i client')
      ]
    ]
  ]

  unfoldable pub ipc_send_event : List IpcClient → List IpcClient
  unfolding send_from
  ipc_send_event clients = send_from (length clients) 0 clients

  -- What each of the functions for an event does.
  unfoldable pub ipc_event : List IpcClient → List IpcClient
  unfolding ipc_has_event_listeners ipc_send_event
  ipc_event clients = if ipc_has_event_listeners clients then ipc_send_event clients else clients

  -- What an event means for one client, and for all: a client that is not subscribed stays as it is,
  -- another one is sent the message or is disconnected.
  abbrev pub deliver : IpcClient → Option IpcClient
  deliver client =
      if not_subscribed event client
      then some client
      else ipc_send_reply (has_memory client) client event text

  abbrev pub deliver_all : List IpcClient → List IpcClient
  deliver_all [] = []
  deliver_all (client ∷ clients) = elim (deliver client) [
    | none ↦ deliver_all clients
    | some client' ↦ client' ∷ deliver_all clients
  ]

  -- The client at the index has been dealt with, and `d` stands there.
  send_from_next :
      (rounds : ℕ) (done clients : List IpcClient) (d : IpcClient)
      → send_from rounds (length (done ++ d ∷ [])) ((done ++ d ∷ []) ++ clients)
        ≡ (done ++ d ∷ []) ++ deliver_all clients
      → send_from rounds (suc (length done)) ((done ++ d ∷ []) ++ clients)
        ≡ done ++ d ∷ deliver_all clients
  send_from_next rounds done clients d e =
      let longer : suc (length done) ≡ length (done ++ d ∷ []) =
        omega (arith, length-append done (d ∷ [])) in
      ap (λ n. send_from rounds n ((done ++ d ∷ []) ++ clients)) longer
      ∙ e
      ∙ append_assoc done (d ∷ []) (deliver_all clients)

  send_from_lem :
      (rounds : ℕ) (done clients : List IpcClient)
      → length clients ≡ rounds
      → send_from rounds (length done) (done ++ clients) ≡ done ++ deliver_all clients
  unfolding send_from
  send_from_lem zero done [] e = refl
  send_from_lem zero done (c ∷ clients) e = absurd (omega arith)
  send_from_lem (suc rounds) done [] e = absurd (omega arith)
  send_from_lem (suc rounds) done (c ∷ clients) e =
      let here = get_elem?-append_end done clients c in
      let next : (d : IpcClient)
          → send_from rounds (suc (length done)) ((done ++ d ∷ []) ++ clients)
            ≡ done ++ d ∷ deliver_all clients =
        λ d.
          send_from_next rounds done clients d
            (send_from_lem rounds (done ++ d ∷ []) clients (omega arith)) in
      elim (Bool-cases (not_subscribed event c)) [
        | inl skip ↦
            rw (send_from, here, deliver_all, skip)
              (ap (send_from rounds (suc (length done))) (sym (append_assoc done (c ∷ []) clients))
                ∙ next c)
        | inr send ↦ elim (Option-cases (ipc_send_reply (has_memory c) c event text)) [
          | inl gone ↦
              rw (send_from, here, deliver_all, send, gone)
                (ap (send_from rounds (length done)) (delete_at-append_end done clients c)
                  ∙ send_from_lem rounds done clients (omega arith))
          | inr (d, sent) ↦
              rw (send_from, here, deliver_all, send, sent)
                (ap (send_from rounds (suc (length done))) (set-append_end done clients c d)
                  ∙ next d)
        ]
      ]

  -- Without a listener, each client stays as it is.
  no_listeners :
      (clients : List IpcClient)
      → ipc_has_event_listeners clients ≡ false
      → deliver_all clients ≡ clients
  unfolding ipc_has_event_listeners
  no_listeners [] e = refl
  no_listeners (c ∷ clients) e = elim (Bool-cases (not_subscribed event c)) [
    | inl skip ↦
        (let same : ipc_has_event_listeners (c ∷ clients) ≡ ipc_has_event_listeners clients =
            rw (ipc_has_event_listeners, skip) refl in
          rw (deliver_all, skip) (ap (λ t. c ∷ t) (no_listeners clients (sym same ∙ e))))
    | inr send ↦
        (let listens : ipc_has_event_listeners (c ∷ clients) ≡ true =
            rw (ipc_has_event_listeners, send) refl in
          absurd cc)
  ]

  -- A function for an event, with its guard and the loop that takes an index again after a client
  -- was disconnected there, does to the list of clients what the event means for each of them, once
  -- and in their order: one that is not subscribed stays as it is, one that is subscribed is sent
  -- the message, and one to which it cannot be sent leaves the list.
  pub ipc_event-deliver_all : (clients : List IpcClient) → ipc_event clients ≡ deliver_all clients
  unfolding ipc_event ipc_send_event
  ipc_event-deliver_all clients = elim (Bool-cases (ipc_has_event_listeners clients)) [
    | inl some_listen ↦ rw (ipc_event, some_listen) (send_from_lem (length clients) [] clients refl)
    | inr none_listens ↦ rw (ipc_event, none_listens) (sym (no_listeners clients none_listens))
  ]
