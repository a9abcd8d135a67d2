-- ===== src/ConnectionManager/RateLimit.antt =====
-- The two rate limits of connection_manager.cpp: connections to the server, and messages of a client.
use multi_threaded_tcp_chat.Base.{
  ℕ, ◌+◌, ◌-◌, ◌≤◌, ◌≡◌, refl, ap, ◌∙◌, List, [], ◌∷◌, ◌++◌, arith, nat_eq, leb, if◌then◌else◌,
  length, Bool-cases, inl, inr, Option-cases,
}
use multi_threaded_tcp_chat.Base.Text.{Text}
use multi_threaded_tcp_chat.Base.Int.{ℤ}
use multi_threaded_tcp_chat.Base.Map.{lookup}
use multi_threaded_tcp_chat.ConnectionManager.{
  Config, ConnectionManager, permanent, until, second, init, drop_old, check_rate, allow_connection,
  is_muted, check_messages, allow_message, record_message, ban, unban, mute, unmute, on_connect,
  on_disconnect,
}
use multi_threaded_tcp_chat.ConnectionManager.Window.{
  count_within, IsWindow, IsWindow-init, IsWindow-drop, IsWindow-later, IsWindow-add,
}

-- The calls that neither read nor write the queue of connections.
pub data Call : Type 0 where
  message : ℕ → ℕ → ℕ → Call
  record_sent : ℕ → ℕ → ℕ → Call
  ban_ip unban_ip : Text → Call
  mute_client : ℕ → ℤ → ℕ → Call
  unmute_client : ℕ → Call
  ask_muted : ℕ → ℕ → Call
  connected disconnected : Call

unfoldable pub apply : Call → ConnectionManager → ConnectionManager
apply (message c t u) m = (allow_message c t u m).1
apply (record_sent c t u) m = record_message c t u m
apply (ban_ip ip) m = ban ip m
apply (unban_ip ip) m = unban ip m
apply (mute_client c d t) m = mute c d t m
apply (unmute_client c) m = unmute c m
apply (ask_muted c t) m = (is_muted c t m).1
apply connected m = on_connect m
apply disconnected m = on_disconnect m

-- Histories of one manager, with the log of the times at which a connection was let in and the last
-- reading of the clock under `rate_mutex`, which only goes up.
pub data Admits (cfg : Config) : ConnectionManager → List ℕ → ℕ → Type 0 where
  start : Admits cfg (init cfg) [] 0
  try_connect :
      (ip : Text) {m : ConnectionManager} {log : List ℕ} {before : ℕ} (now : ℕ)
      → Admits cfg m log before
      → before ≤ now
      → Admits cfg
          (allow_connection ip now m).1
          (if (allow_connection ip now m).0 then log ++ now ∷ [] else log)
          now
  other :
      (c : Call) {m : ConnectionManager} {log : List ℕ} {before : ℕ}
      → Admits cfg m log before
      → Admits cfg (apply c m) log before

pub is_muted-same :
    (c t : ℕ) (m : ConnectionManager)
    → ((is_muted c t m).1.connection_timestamps ≡ m.connection_timestamps)
      × ((is_muted c t m).1.client_messages ≡ m.client_messages)
      × ((is_muted c t m).1.config ≡ m.config)
unfolding is_muted
is_muted-same c t m = elim (Option-cases (lookup c m.muted_clients)) [
  | inl e ↦ rw (e, is_muted) (refl, refl, refl)
  | inr (permanent, e) ↦ rw (e, is_muted) (refl, refl, refl)
  | inr (until x, e) ↦ rw (e, is_muted) (ground arith)
]

apply-same :
    (k : Call) (m : ConnectionManager)
    → ((apply k m).connection_timestamps ≡ m.connection_timestamps)
      × ((apply k m).config ≡ m.config)
unfolding apply allow_message check_messages record_message ban unban mute unmute on_connect
    on_disconnect
apply-same (message c t u) m = ground (arith, is_muted-same c t m)
apply-same (ask_muted c t) m = ground (arith, is_muted-same c t m)
apply-same k m = ground arith

record AdmitsInv (cfg : Config) (m : ConnectionManager) (log : List ℕ) (now : ℕ) : Type 0 where
  same_config : m.config ≡ cfg
  window : IsWindow second cfg.max_connections_per_second log m.connection_timestamps now

check_rate-AdmitsInv :
    (cfg : Config) (m : ConnectionManager) (log : List ℕ) (before now : ℕ)
    → before ≤ now
    → AdmitsInv cfg m log before
    → AdmitsInv cfg (check_rate now m).1 (if (check_rate now m).0 then log ++ now ∷ [] else log) now
unfolding check_rate
check_rate-AdmitsInv cfg m log before now h v =
    let recent = drop_old (now - second) m.connection_timestamps in
    let w = IsWindow-drop v.window now h in
    elim (Bool-cases (leb m.max_connections_per_second (length recent))) [
      | inl full ↦ rw full (record { same_config = v.same_config; window = w })
      | inr room ↦ rw room (record {
        same_config = v.same_config;
        window =
            IsWindow-add w
              (ground (arith, ap (λ (c : Config). c.max_connections_per_second) v.same_config)) now
              (omega arith);
      })
    ]

allow_connection-AdmitsInv :
    (cfg : Config) (ip : Text) (m : ConnectionManager) (log : List ℕ) (before now : ℕ)
    → before ≤ now
    → AdmitsInv cfg m log before
    → AdmitsInv cfg
        (allow_connection ip now m).1
        (if (allow_connection ip now m).0 then log ++ now ∷ [] else log)
        now
unfolding allow_connection
allow_connection-AdmitsInv cfg ip m log before now h v =
    ground (arith, check_rate-AdmitsInv cfg m log before now h v, later)
  where
    later : AdmitsInv cfg m log now
    later = record { same_config = v.same_config; window = IsWindow-later v.window now h }

Admits-AdmitsInv :
    {cfg : Config} {m : ConnectionManager} {log : List ℕ} {now : ℕ}
    → Admits cfg m log now
    → AdmitsInv cfg m log now
unfolding init
Admits-AdmitsInv {cfg} start = record {
  same_config = refl;
  window = IsWindow-init second cfg.max_connections_per_second;
}
Admits-AdmitsInv {cfg} (try_connect ip {m} {log} {before} now r h) =
    allow_connection-AdmitsInv cfg ip m log before now h (Admits-AdmitsInv r)
Admits-AdmitsInv (other c {m} r) =
    let v = Admits-AdmitsInv r in
    let (same, config) = apply-same c m in
    record { same_config = config ∙ v.same_config; window = rw same v.window }

-- Whatever calls are made, in whatever order, in no second does AllowConnection let in more
-- connections than the configuration says: of the times at which it did, at most that many lie
-- between `a` and one second later, both ends included.
pub connections_per_second :
    {cfg : Config} {m : ConnectionManager} {log : List ℕ} {now : ℕ}
    → Admits cfg m log now
    → (a : ℕ) → count_within a (a + second) log ≤ cfg.max_connections_per_second
connections_per_second r = (Admits-AdmitsInv r).window.bounded
