-- ===== src/Relay/Silence.antt =====
-- When the relay's socket is given up.
use dock_neighbor_hub.Shared.{
  ℕ, ◌-◌, ◌≡◌, refl, Bool, false, Option, none, some, String, List, [], ◌∷◌, if◌then◌else◌, ltb,
  any, arith, Bool-cases, inl, inr,
}
use dock_neighbor_hub.Relay.{
  Wake, text, control, ended, failed, dropped, ping_tick, nonce_tick, goes_on, broken, Socket,
  WorkerMessage, keys, pong, call, wake, serve, heard, relay_is_silent, nonce_is_silent,
  silence_limit_ms, same_nonce,
}

-- What a half-open socket wakes for: the fast timer and frames that the edge makes.
pub data Lull : Type 0 where
  edge tick : ℕ → Lull

abbrev pub lull : List Lull → List (Wake × ℕ)
lull [] = []
lull (edge at ∷ ls) = (control, at) ∷ lull ls
lull (tick at ∷ ls) = (ping_tick, at) ∷ lull ls

abbrev pub is_late : ℕ → Lull → Bool
is_late since (edge at) = false
is_late since (tick at) = ltb silence_limit_ms (at - since)

-- A socket on which only control frames and the fast timer come is given up exactly if some tick of
-- the timer falls more than 35 seconds after the last text frame, however many control frames come.
pub serve-lull :
    (ls : List Lull) (s : Socket)
    → serve (lull ls) s ≡ (if any (is_late s.last_seen) ls then broken else goes_on s)
unfolding serve wake relay_is_silent
serve-lull [] s = refl
serve-lull (edge at ∷ ls) s = serve-lull ls s
serve-lull (tick at ∷ ls) s = elim (Bool-cases (ltb silence_limit_ms (at - s.last_seen))) [
  | inl e ↦ rw e refl
  | inr e ↦ rw e (serve-lull ls s)
]

-- Whether a message echoes the nonce that is waited for.
abbrev pub echoes : Wake → Socket → Bool
echoes (text (some (pong n))) s = same_nonce n s.pending_nonce
echoes (text (some (keys ks))) s = false
echoes (text (some (call id uid role method path body))) s = false
echoes (text none) s = false
echoes control s = false
echoes ended s = false
echoes failed s = false
echoes dropped s = false
echoes ping_tick s = false
echoes (nonce_tick live n) s = false

heard-echoes :
    (m : Option WorkerMessage) (now : ℕ) (s : Socket)
    → s.nonce_echoed ≡ false
    → (heard m now s).nonce_echoed ≡ echoes (text m) s
unfolding heard
heard-echoes none now s e = e
heard-echoes (some (keys ks)) now s e = e
heard-echoes (some (call id uid role method path body)) now s e = e
heard-echoes (some (pong n)) now s e = ground (arith, e)

after_wake :
    (w : Wake) (now : ℕ) (s t : Socket)
    → s.nonce_echoed ≡ false
    → wake w now s ≡ goes_on t
    → t.nonce_echoed ≡ echoes w s
unfolding wake nonce_is_silent
after_wake (text m) now s t e h =
    let k = heard-echoes m now (record s { last_seen = now }) e in ground (arith, h, k)
after_wake control now s t e h = ground (arith, h, e)
after_wake ended now s t e h = ground (arith, h)
after_wake failed now s t e h = ground (arith, h)
after_wake dropped now s t e h = ground (arith, h)
after_wake ping_tick now s t e h = ground (arith, h, e)
after_wake (nonce_tick live n) now s t e h = ground (arith, h, e)

-- As long as the worker has echoed no nonce, no tick of the slow timer gives the socket up, and
-- whatever the socket wakes for, it is held to nonces afterwards exactly if that was the echo of the
-- nonce it waits for.
pub wake_unechoed :
    (now : ℕ) (s : Socket)
    → s.nonce_echoed ≡ false
    → ((live : ℕ) (n : String)
        → wake (nonce_tick live n) now s
          ≡ goes_on (record s { nonce_secs = live; pending_nonce = some n }))
      × ((w : Wake) (t : Socket) → wake w now s ≡ goes_on t → t.nonce_echoed ≡ echoes w s)
unfolding wake nonce_is_silent
wake_unechoed now s e = (λ live n. rw e refl, λ w t h. after_wake w now s t e h)
