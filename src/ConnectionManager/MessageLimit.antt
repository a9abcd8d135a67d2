-- ===== src/ConnectionManager/MessageLimit.antt =====
-- The limit on the messages of one client, as HandleMessage of server.cpp applies it: AllowMessage,
-- and RecordMessage if that allows.
use multi_threaded_tcp_chat.Base.{
  ℕ, ◌+◌, ◌-◌, ◌≤◌, ◌<◌, ◌≡◌, refl, ap, ◌∙◌, Bool, true, false, List, [], ◌∷◌, ◌++◌, arith, ◌==◌,
  nat_eq, if◌then◌else◌, length, Bool-cases, inl, inr,
}
use multi_threaded_tcp_chat.Base.Text.{Text}
use multi_threaded_tcp_chat.Base.Int.{ℤ}
use multi_threaded_tcp_chat.Base.Map.{
  Map, lookup, insert, lookup_or, lookup-insert, lookup-insert_self,
}
use multi_threaded_tcp_chat.ConnectionManager.{
  Config, ConnectionManager, minute, init, drop_old, is_muted, check_messages, allow_message,
  record_message, ban, unban, mute, unmute, on_connect, on_disconnect, allow_connection, check_rate,
}
use multi_threaded_tcp_chat.ConnectionManager.Window.{
  count_within, IsWindow, IsWindow-init, IsWindow-drop, IsWindow-later, IsWindow-add,
}
use multi_threaded_tcp_chat.ConnectionManager.RateLimit.{is_muted-same}

-- The readings of the clock that one message makes, in order.
pub record Readings : Type 0 where
  pub asked_mute : ℕ
  pub asked : ℕ
  pub recorded : ℕ
  pub active : ℕ
  pub in_order : asked ≤ recorded

-- Lines 284 to 289 of HandleMessage, without the reply: was the message let through?
unfoldable pub attempt : ℕ → Readings → ConnectionManager → Bool × ConnectionManager
attempt c t m =
    let (ok, m') = allow_message c t.asked_mute t.asked m in
    if ok then (true, record_message c t.recorded t.active m') else (false, m')

-- The calls that do not touch the queue of messages of any client.
pub data Call : Type 0 where
  connect : Text → ℕ → Call
  ban_ip unban_ip : Text → Call
  mute_client : ℕ → ℤ → ℕ → Call
  unmute_client : ℕ → Call
  ask_muted : ℕ → ℕ → Call
  connected disconnected : Call

unfoldable pub apply : Call → ConnectionManager → ConnectionManager
apply (connect ip t) m = (allow_connection ip t m).1
apply (ban_ip ip) m = ban ip m
apply (unban_ip ip) m = unban ip m
apply (mute_client c d t) m = mute c d t m
apply (unmute_client c) m = unmute c m
apply (ask_muted c t) m = (is_muted c t m).1
apply connected m = on_connect m
apply disconnected m = on_disconnect m

-- Histories in which the messages of client `c` are handled one after the other, with the log of
-- the times at which one was recorded and the last reading of the clock for that client.
pub data Sends (cfg : Config) (c : ℕ) : ConnectionManager → List ℕ → ℕ → Type 0 where
  start : Sends cfg c (init cfg) [] 0
  own :
      {m : ConnectionManager} {log : List ℕ} {before : ℕ} (t : Readings)
      → Sends cfg c m log before
      → before ≤ t.asked
      → Sends cfg c
          (attempt c t m).1
          (if (attempt c t m).0 then log ++ t.recorded ∷ [] else log)
          t.recorded
  of_another :
      (d : ℕ) {m : ConnectionManager} {log : List ℕ} {before : ℕ} (t : Readings)
      → Sends cfg c m log before
      → (d == c) ≡ false
      → Sends cfg c (attempt d t m).1 log before
  other :
      (k : Call) {m : ConnectionManager} {log : List ℕ} {before : ℕ}
      → Sends cfg c m log before
      → Sends cfg c (apply k m) log before

abbrev queue : ℕ → ConnectionManager → List ℕ
queue c m = lookup_or [] c m.client_messages

queue-insert : (c : ℕ) (ts : List ℕ) (q : Map ℕ (List ℕ)) → lookup_or [] c (insert c ts q) ≡ ts
queue-insert c ts q = ground (arith, lookup-insert_self c ts q)

record SendsInv (cfg : Config) (c : ℕ) (m : ConnectionManager) (log : List ℕ) (now : ℕ)
    : Type 0 where
  same_config : m.config ≡ cfg
  window : IsWindow minute cfg.max_messages_per_minute log (queue c m) now

apply-same :
    (k : Call) (m : ConnectionManager)
    → ((apply k m).client_messages ≡ m.client_messages) × ((apply k m).config ≡ m.config)
unfolding apply allow_connection check_rate ban unban mute unmute on_connect on_disconnect
apply-same (ask_muted c t) m = ((is_muted-same c t m).1, (is_muted-same c t m).2)
apply-same (connect ip t) m = ground arith
apply-same k m = ground arith

-- A message of another client leaves this client's queue alone.
attempt_of_another :
    (c d : ℕ) (t : Readings) (m : ConnectionManager)
    → (d == c) ≡ false
    → (queue c (attempt d t m).1 ≡ queue c m) × ((attempt d t m).1.config ≡ m.config)
unfolding attempt allow_message check_messages record_message
attempt_of_another c d t m h =
    let m' = (is_muted d t.asked_mute m).1 in
    let recent = drop_old (t.asked - minute) (queue d m') in
    let counted = insert d recent m'.client_messages in
    ground (
      arith,
      h,
      is_muted-same d t.asked_mute m,
      lookup-insert d c recent m'.client_messages,
      lookup-insert d c (lookup_or [] d counted ++ t.recorded ∷ []) counted,
    )

module _ (cfg : Config) (c : ℕ) (log : List ℕ) where
  SendsInv-later :
      (m : ConnectionManager) {before : ℕ} (now : ℕ)
      → before ≤ now
      → SendsInv cfg c m log before
      → SendsInv cfg c m log now
  SendsInv-later m now h v = record {
    same_config = v.same_config;
    window = IsWindow-later v.window now h;
  }

  is_muted-SendsInv :
      (m : ConnectionManager) (t : ℕ) {before : ℕ}
      → SendsInv cfg c m log before
      → SendsInv cfg c (is_muted c t m).1 log before
  is_muted-SendsInv m t v =
      let (_, messages, config) = is_muted-same c t m in
      record { same_config = config ∙ v.same_config; window = rw messages v.window }

  -- The test drops the old times, and passes only if there is room for one more.
  check_messages-SendsInv :
      (m : ConnectionManager) {before : ℕ} (now : ℕ)
      → before ≤ now
      → SendsInv cfg c m log before
      → SendsInv cfg c (check_messages c now m).1 log now
        × ((check_messages c now m).0 ≡ true
            → length (queue c (check_messages c now m).1) < cfg.max_messages_per_minute)
  unfolding check_messages
  check_messages-SendsInv m now h v =
      let recent = drop_old (now - minute) (queue c m) in
      (
        record {
          same_config = v.same_config;
          window = rw (queue-insert c recent m.client_messages) (IsWindow-drop v.window now h);
        },
        λ ok.
            rw (queue-insert c recent m.client_messages)
              (ground (arith, ok, ap (λ (k : Config). k.max_messages_per_minute) v.same_config)),
      )

  record_message-SendsInv :
      (m : ConnectionManager) {before : ℕ} (now active : ℕ)
      → before ≤ now
      → length (queue c m) < cfg.max_messages_per_minute
      → SendsInv cfg c m log before
      → SendsInv cfg c (record_message c now active m) (log ++ now ∷ []) now
  unfolding record_message
  record_message-SendsInv m now active h room v = record {
    same_config = v.same_config;
    window =
        rw (queue-insert c (queue c m ++ now ∷ []) m.client_messages)
          (IsWindow-add v.window room now h);
  }

  attempt-SendsInv :
      (t : Readings) (m : ConnectionManager) {before : ℕ}
      → before ≤ t.asked
      → SendsInv cfg c m log before
      → SendsInv cfg c
          (attempt c t m).1
          (if (attempt c t m).0 then log ++ t.recorded ∷ [] else log)
          t.recorded
  unfolding attempt allow_message
  attempt-SendsInv t m {before} h v =
      let m' = (is_muted c t.asked_mute m).1 in
      let v' : SendsInv cfg c m' log before = is_muted-SendsInv m t.asked_mute v in
      let (w, room) = check_messages-SendsInv m' t.asked h v' in
      elim (Bool-cases (is_muted c t.asked_mute m).0) [
        | inl muted ↦ rw muted (SendsInv-later m' t.recorded (omega (arith, t.in_order)) v')
        | inr free ↦ rw free (elim (Bool-cases (check_messages c t.asked m').0) [
          | inl ok ↦ rw ok (record_message-SendsInv _ t.recorded t.active t.in_order (room ok) w)
          | inr full ↦ rw full (SendsInv-later _ t.recorded t.in_order w)
        ])
      ]

Sends-SendsInv :
    {cfg : Config} {c : ℕ} {m : ConnectionManager} {log : List ℕ} {now : ℕ}
    → Sends cfg c m log now
    → SendsInv cfg c m log now
unfolding init lookup
Sends-SendsInv {cfg} start = record {
  same_config = refl;
  window = IsWindow-init minute cfg.max_messages_per_minute;
}
Sends-SendsInv {cfg} {c} (own {m} {log} t r h) = attempt-SendsInv cfg c log t m h (Sends-SendsInv r)
Sends-SendsInv {cfg} {c} (of_another d {m} t r ne) =
    let v = Sends-SendsInv r in
    let (messages, config) = attempt_of_another c d t m ne in
    record { same_config = config ∙ v.same_config; window = rw messages v.window }
Sends-SendsInv {cfg} {c} (other k {m} r) =
    let v = Sends-SendsInv r in
    let (messages, config) = apply-same k m in
    record { same_config = config ∙ v.same_config; window = rw messages v.window }

-- Whatever other clients do, if the messages of a client are handled one after the other, in no
-- minute are more of them recorded than the configuration says: of the times at which one was, at
-- most that many lie between `a` and one minute later, both ends included.
pub messages_per_minute :
    {cfg : Config} {c : ℕ} {m : ConnectionManager} {log : List ℕ} {now : ℕ}
    → Sends cfg c m log now
    → (a : ℕ) → count_within a (a + minute) log ≤ cfg.max_messages_per_minute
messages_per_minute r = (Sends-SendsInv r).window.bounded
