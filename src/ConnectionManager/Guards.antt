-- ===== src/ConnectionManager/Guards.antt =====
-- Bans, mutes and timeouts of connection_manager.cpp.
use multi_threaded_tcp_chat.Base.{
  ℕ, ◌+◌, ◌*◌, ◌≤◌, ◌≡◌, ◌≢◌, refl, ap, Bool, true, false, not, ◌&&◌, ◌||◌, List, [], ◌∷◌, arith,
  ◌==◌, nat_eq, text_eq, text_beq, All, ltb, leb, if◌then◌else◌, Bool-cases, inl, inr, Option, some,
  none, Option-cases,
}
use multi_threaded_tcp_chat.Base.Eq.{text_beq_iff}
use multi_threaded_tcp_chat.Base.Text.{Text}
use multi_threaded_tcp_chat.Base.Int.{ℤ, pos, is_zero, ltb_ℤ, ◌+ℤ◌, scale, pos_part, neg_part}
use multi_threaded_tcp_chat.Base.Map.{lookup, lookup-insert, lookup-erase}
use multi_threaded_tcp_chat.Base.Set.{contains, contains-add, contains-remove}
use multi_threaded_tcp_chat.ConnectionManager.{
  ConnectionManager, Expiry, permanent, until, second, is_muted, is_banned, check_messages,
  allow_message, record_message, ban, unban, mute, unmute, on_connect, on_disconnect,
  allow_connection, check_rate, check_timeouts, timed_out,
}
use multi_threaded_tcp_chat.ConnectionManager.RateLimit.{
  Call, message, ban_ip, unban_ip, ask_muted, apply,
}

is_muted-banned_ips :
    (c t : ℕ) (m : ConnectionManager) → (is_muted c t m).1.banned_ips ≡ m.banned_ips
unfolding is_muted
is_muted-banned_ips c t m = elim (Option-cases (lookup c m.muted_clients)) [
  | inl e ↦ rw (e, is_muted)
  | inr (permanent, e) ↦ rw (e, is_muted)
  | inr (until x, e) ↦ rw (e, is_muted) (ground arith)
]

-- What a call does to the set of banned addresses.
is_banned-apply :
    (ip : Text) (k : Call) (m : ConnectionManager)
    → k ≢ unban_ip ip
    → is_banned ip m ≡ true
    → is_banned ip (apply k m) ≡ true
unfolding apply is_banned ban unban allow_message check_messages record_message mute unmute
    on_connect on_disconnect
is_banned-apply ip (message c t u) m ne h = ground (arith, is_muted-banned_ips c t m)
is_banned-apply ip (ask_muted c t) m ne h = ground (arith, is_muted-banned_ips c t m)
is_banned-apply ip (ban_ip x) m ne h = ground (arith, contains-add x ip m.banned_ips)
is_banned-apply ip (unban_ip x) m ne h = elim (Bool-cases (text_beq x ip)) [
  | inl same ↦ absurd (ne (ap unban_ip ((text_beq_iff x ip).0 same)))
  | inr other ↦ ground (arith, contains-remove x ip m.banned_ips)
]
is_banned-apply ip k m ne h = ground arith

-- A call of any method that changes the state.
pub data Event : Type 0 where
  call : Call → Event
  connect : Text → ℕ → Event

unfoldable pub run : List Event → ConnectionManager → ConnectionManager
run [] m = m
run (call k ∷ ks) m = run ks (apply k m)
run (connect ip now ∷ ks) m = run ks (allow_connection ip now m).1

is_banned-run :
    (ip : Text) (ks : List Event) (m : ConnectionManager)
    → All (λ k. k ≢ call (unban_ip ip)) ks
    → is_banned ip m ≡ true
    → is_banned ip (run ks m) ≡ true
unfolding run
is_banned-run ip [] m never h = h
is_banned-run ip (call k ∷ ks) m never h =
    is_banned-run ip ks (apply k m) never.1 (is_banned-apply ip k m (λ e. never.0 (ap call e)) h)
is_banned-run ip (connect x now ∷ ks) m never h =
    is_banned-run ip ks (allow_connection x now m).1 never.1
      (unfold allow_connection check_rate is_banned in ground (arith, h))

is_banned-ban : (ip : Text) (m : ConnectionManager) → is_banned ip (ban ip m) ≡ true
unfolding is_banned ban
is_banned-ban ip m = ground (arith, contains-add ip ip m.banned_ips, text_beq_iff ip ip)

-- From Ban on, whatever else happens, AllowConnection turns the address away until it is unbanned,
-- and a connection that is turned away for a ban uses up nothing of the rate limit.
pub banned_until_unban :
    (ip : Text) (ks : List Event) (now : ℕ) (m : ConnectionManager)
    → All (λ k. k ≢ call (unban_ip ip)) ks
    → allow_connection ip now (run ks (ban ip m)) ≡ (false, run ks (ban ip m))
unfolding allow_connection
banned_until_unban ip ks now m never =
    ground (arith, is_banned-run ip ks (ban ip m) never (is_banned-ban ip m))

-- Does `mute` with this duration, at time `from`, still hold at time `now`?
abbrev pub still_muted : ℕ → ℤ → ℕ → Bool
still_muted from duration now =
    is_zero duration || not (ltb_ℤ (pos from +ℤ scale second duration) (pos now))

-- Whether an entry of the mute table mutes at time `now`.
abbrev mutes : Option Expiry → ℕ → Bool
mutes none now = false
mutes (some permanent) now = true
mutes (some (until e)) now = not (ltb_ℤ e (pos now))

is_muted-answer :
    (c now : ℕ) (m : ConnectionManager)
    → (is_muted c now m).0 ≡ mutes (lookup c m.muted_clients) now
unfolding is_muted
is_muted-answer c now m = elim (Option-cases (lookup c m.muted_clients)) [
  | inl e ↦ rw (e, is_muted)
  | inr (permanent, e) ↦ rw (e, is_muted)
  | inr (until x, e) ↦ rw (e, is_muted) (ground arith)
]

is_muted-table :
    (c d now : ℕ) (m : ConnectionManager)
    → lookup d (is_muted c now m).1.muted_clients ≡ (
        if c == d && not (mutes (lookup c m.muted_clients) now)
        then none
        else lookup d m.muted_clients)
unfolding is_muted
is_muted-table c d now m = elim (Option-cases (lookup c m.muted_clients)) [
  | inl e ↦ rw (e, is_muted) (ground (arith, e))
  | inr (permanent, e) ↦ rw (e, is_muted) (ground (arith, e))
  | inr (until x, e) ↦ rw (e, is_muted) (ground (arith, e, lookup-erase c d m.muted_clients))
]

-- What is over stays over.
mutes-later : (o : Option Expiry) (t u : ℕ) → t ≤ u → mutes o t ≡ false → mutes o u ≡ false
mutes-later none t u h over = refl
mutes-later (some permanent) t u h over = cc
mutes-later (some (until x)) t u h over = ground arith

-- Does a mute of this duration, given at time `from`, hold at time `now`?
abbrev pub holds : ℕ → ℤ → ℕ → Bool
holds from duration now =
    is_zero duration || leb (now + second * neg_part duration) (from + second * pos_part duration)

mutes-mute :
    (from now : ℕ) (duration : ℤ)
    → mutes (some (until (pos from +ℤ scale second duration))) now
      ≡ leb (now + second * neg_part duration) (from + second * pos_part duration)
unfolding ◌+ℤ◌ scale
mutes-mute from now duration = ground arith

-- After Mute the client is muted for good if the duration is 0, and otherwise as long as the time is
-- not past the time of the call plus the duration, which may be negative. The mutes of the other
-- clients stay as they were.
pub is_muted-mute :
    (c e : ℕ) (duration : ℤ) (from now : ℕ) (m : ConnectionManager)
    → (is_muted e now (mute c duration from m)).0
      ≡ (if c == e then holds from duration now else (is_muted e now m).0)
unfolding mute
is_muted-mute c e duration from now m =
    rw (is_muted-answer e now (mute c duration from m), is_muted-answer e now m)
      (ground (
        arith,
        mutes-mute from now duration,
        lookup-insert c e permanent m.muted_clients,
        lookup-insert c e (until (pos from +ℤ scale second duration)) m.muted_clients,
      ))

-- That IsMuted forgets the mutes that have run out is never seen: whoever is asked for first, the
-- answer at the same or a later time is the one that there would have been.
pub is_muted_forgets :
    (c e : ℕ) (asked now : ℕ) (m : ConnectionManager)
    → asked ≤ now
    → (is_muted e now (is_muted c asked m).1).0 ≡ (is_muted e now m).0
is_muted_forgets c e asked now m h =
    rw
      (
        is_muted-answer e now (is_muted c asked m).1,
        is_muted-answer e now m,
        is_muted-table c e asked m,
      )
      (ground (arith, mutes-later (lookup c m.muted_clients) asked now h))

-- A message that AllowMessage lets through is from a client that is not muted, also if the mute is
-- asked for again later, once the message is recorded.
pub allowed-not_muted :
    (c t u v w now : ℕ) (m : ConnectionManager)
    → t ≤ now
    → (allow_message c t u m).0 ≡ true
    → (is_muted c now (record_message c v w (allow_message c t u m).1)).0 ≡ false
unfolding allow_message check_messages record_message
allowed-not_muted c t u v w now m h ok =
    let after = record_message c v w (allow_message c t u m).1 in
    rw (is_muted-answer c now after) (
      ground (
        arith,
        ok,
        is_muted-answer c t m,
        is_muted-table c c t m,
        mutes-later (lookup c m.muted_clients) t now h,
      ))

-- CheckTimeouts names a client exactly when it is in the list, has sent a message, and its last one is
-- longer ago than the timeout.
pub check_timeouts_lem :
    (ids : List ℕ) (now : ℕ) (m : ConnectionManager) (id : ℕ)
    → contains id (check_timeouts ids now m) ≡ (
        contains id ids && elim (lookup id m.last_activity) [
          | none ↦ false
          | some last ↦ ltb (last + m.connection_timeout_seconds * second) now
        ])
unfolding check_timeouts contains timed_out
check_timeouts_lem [] now m id = refl
check_timeouts_lem (x ∷ ids) now m id = ground (arith, check_timeouts_lem ids now m id)
