-- ===== src/Prober/Leg/Carries.antt =====
-- What every part of a tick keeps of each port (src/prober/mod.rs).
pub mod Receive
pub mod Ticks
use Prim.Native.String.{String}
use cfab.Prelude.{
  ℕ, suc, ◌+◌, ◌≤◌, ◌≡◌, refl, sym, ◌∙◌, inl, inr, Bool, true, false, not, List, [], ◌∷◌, map,
  Option, none, some, arith, All, Pairs, Pairs-refl, Pairs-trans, Pairs-map, length, length-take-le,
  take, filter, ◌==◌, if◌then◌else◌, Bool-cases, Option-cases,
}
use cfab.Prelude.Bytes.{Bytes}
use cfab.Prober.Frame.{hello_router_id}
use cfab.Prober.Passive.{Verdict, good, watch, suspect, quiet, verdicts}
use cfab.Prober.Leg.Port.{
  BondLink, up, going_back, going_down, down, unknown, ProbePort, note_usability, saw,
}
use cfab.Prober.Leg.State.{
  Fallback, Kind, ingress, fallback, Leg, World, PortAnswer, answered, no_device, failed, ifname_is,
}
use cfab.Prober.Leg.Receive.{
  Reading, answered_link, read_port, appear, Drained, hear_rid, hear_frame, hear_all, drain, stamp,
  fold_ingress, fold_fallback, fold_kind, take_in, tap_error, opened, receive_port, receive,
}

-- No frame that is waiting on the port carries a Router ID.
abbrev pub NoHello : World → String → Type 0
NoHello w name = All (λ frame. hello_router_id frame ≡ none) (w.recv name)

-- The port keeps its name, its list of peers stays short, and if it was condemned and no hello
-- came in, it still is.
pub record Carries (w : World) (s s' : ProbePort) : Type 0 where
  pub name : s'.ifname ≡ s.ifname
  pub short : length s.recent ≤ 4 → length s'.recent ≤ 4
  pub dead : NoHello w s.ifname → s.hello_dead ≡ true → s'.hello_dead ≡ true

module _ (w : World) where
  pub Carries-same :
      (s s' : ProbePort)
      → s'.ifname ≡ s.ifname
      → s'.recent ≡ s.recent
      → (s.hello_dead ≡ true → s'.hello_dead ≡ true)
      → Carries w s s'
  Carries-same s s' n r d = record { name = n; short = λ h. rw r h; dead = λ _. d }

  pub Carries-refl : (s : ProbePort) → Carries w s s
  Carries-refl s = Carries-same s s refl refl λ d. d

  pub Carries-trans : (s t u : ProbePort) → Carries w s t → Carries w t u → Carries w s u
  Carries-trans s t u a b = record {
    name = b.name ∙ a.name;
    short = λ h. b.short (a.short h);
    dead = λ n d. b.dead (rw a.name n) (a.dead n d);
  }

  Carries-read : (a : PortAnswer) (s : ProbePort) → Carries w s (read_port a s).port
  unfolding read_port answered_link
  Carries-read (answered c none) s = Carries-same s _ refl refl λ d. d
  Carries-read (answered c (some up)) s = Carries-same s _ refl refl λ d. d
  Carries-read (answered c (some going_back)) s = Carries-same s _ refl refl λ d. d
  Carries-read (answered c (some going_down)) s = Carries-same s _ refl refl λ d. d
  Carries-read (answered c (some down)) s = Carries-same s _ refl refl λ d. d
  Carries-read (answered c (some (unknown n))) s = Carries-same s _ refl refl λ d. d
  Carries-read no_device s = Carries-same s _ refl refl λ d. d
  Carries-read (failed why) s = Carries-same s _ refl refl λ d. d

  Carries-appear : (now : ℕ) (k : Kind) (r : Reading) → Carries w r.port (appear now k r)
  unfolding appear
  Carries-appear now k r = Carries-same r.port _ refl refl λ d. d

  -- Without a hello, the frames change nothing but `replied`.
  hear_frame-no_hello :
      (f : Fallback) (active : Option String) (now : ℕ) (d : Drained) (frame : Bytes)
      → hello_router_id frame ≡ none
      → ((hear_frame f active now d frame).port ≡ d.port)
        × ((hear_frame f active now d frame).heard_now ≡ d.heard_now)
  unfolding hear_frame
  hear_frame-no_hello f active now d frame h = rw (h, hear_frame) (ground arith)

  hear_all-no_hello :
      (f : Fallback) (active : Option String) (now : ℕ) (d : Drained) (frames : List Bytes)
      → All (λ frame. hello_router_id frame ≡ none) frames
      → ((hear_all f active now d frames).port ≡ d.port)
        × ((hear_all f active now d frames).heard_now ≡ d.heard_now)
  unfolding hear_all
  hear_all-no_hello f active now d [] a = (refl, refl)
  hear_all-no_hello f active now d (frame ∷ frames) a =
      let (p, h) = hear_frame-no_hello f active now d frame a.0 in
      let (q, i) = hear_all-no_hello f active now (hear_frame f active now d frame) frames a.1 in
      (q ∙ p, i ∙ h)

  -- Any frames keep the name, the short list, and a mark.
  Keeps : ProbePort → ProbePort → Type 0
  Keeps s s' =
      (s'.ifname ≡ s.ifname)
      × (s'.hello_dead ≡ s.hello_dead)
      × (length s.recent ≤ 4 → length s'.recent ≤ 4)

  hear_rid-Keeps :
      (f : Fallback) (active : Option String) (now : ℕ) (d : Drained) (rid : ℕ)
      → Keeps d.port (hear_rid f active now d rid).port
  unfolding hear_rid saw Keeps
  hear_rid-Keeps f active now d rid =
      ground (arith, length-take-le 3 (filter (λ (r : ℕ). not (r == rid)) d.port.recent))

  hear_frame-Keeps :
      (f : Fallback) (active : Option String) (now : ℕ) (d : Drained) (frame : Bytes)
      → Keeps d.port (hear_frame f active now d frame).port
  unfolding hear_frame Keeps
  hear_frame-Keeps f active now d frame = elim (Option-cases (hello_router_id frame)) [
    | inl e ↦ let (p, _) = hear_frame-no_hello f active now d frame e in rw p (refl, refl, λ h. h)
    | inr (rid, e) ↦ rw (e, hear_frame) (hear_rid-Keeps f active now d rid)
  ]

  hear_all-Keeps :
      (f : Fallback) (active : Option String) (now : ℕ) (d : Drained) (frames : List Bytes)
      → Keeps d.port (hear_all f active now d frames).port
  unfolding hear_all Keeps
  hear_all-Keeps f active now d [] = (refl, refl, λ h. h)
  hear_all-Keeps f active now d (frame ∷ frames) =
      let (n, x, s) = hear_frame-Keeps f active now d frame in
      let (n', x', s') = hear_all-Keeps f active now (hear_frame f active now d frame) frames in
      (n' ∙ n, x' ∙ x, λ h. s' (s h))

  drain-Keeps :
      (k : Kind) (active : Option String) (now : ℕ) (s : ProbePort) (frames : List Bytes)
      → Keeps s (drain k active now s frames).port
  unfolding drain Keeps
  drain-Keeps (ingress router) active now s frames = (refl, refl, λ h. h)
  drain-Keeps (fallback f) active now s frames =
      hear_all-Keeps f active now (record { port = s; replied = false; heard_now = false }) frames

  stamp-same :
      (now : ℕ) (d : Drained)
      → ((stamp now d).ifname ≡ d.port.ifname)
        × ((stamp now d).recent ≡ d.port.recent)
        × ((stamp now d).hello_dead ≡ d.port.hello_dead)
  unfolding stamp
  stamp-same now d = ground arith

  fold_kind-same :
      (k : Kind) (d : Drained) (s : ProbePort)
      → ((fold_kind k d s).ifname ≡ s.ifname)
        × ((fold_kind k d s).recent ≡ s.recent)
        × (d.heard_now ≡ false → (fold_kind k d s).hello_dead ≡ s.hello_dead)
  unfolding fold_kind fold_ingress fold_fallback
  fold_kind-same (ingress router) d s = ground arith
  fold_kind-same (fallback f) d s = ground arith

  drain-no_hello :
      (k : Kind) (active : Option String) (now : ℕ) (s : ProbePort) (frames : List Bytes)
      → All (λ frame. hello_router_id frame ≡ none) frames
      → (drain k active now s frames).heard_now ≡ false
  unfolding drain
  drain-no_hello (ingress router) active now s frames a = refl
  drain-no_hello (fallback f) active now s frames a =
      (hear_all-no_hello f active now (record { port = s; replied = false; heard_now = false })
        frames a).1

  Carries-take_in :
      (k : Kind) (active : Option String) (now : ℕ) (s : ProbePort)
      → Carries w s (take_in k active now (w.recv s.ifname) s)
  unfolding take_in Keeps
  Carries-take_in k active now s =
      let d = drain k active now s (w.recv s.ifname) in
      let (n, x, r) = drain-Keeps k active now s (w.recv s.ifname) in
      let (n', r', x') = stamp-same now d in
      let (n'', r'', x'') = fold_kind-same k d (stamp now d) in
      record {
        name = n'' ∙ n' ∙ n;
        short = λ h. rw (r'', r') (r h);
        dead = λ no e. x'' (drain-no_hello k active now s (w.recv s.ifname) no) ∙ x' ∙ x ∙ e;
      }

  Carries-opened : (k : Kind) (s : ProbePort) → Carries w s (opened k s)
  Carries-opened (ingress router) s = Carries-refl s
  Carries-opened (fallback f) s = Carries-same s _ refl refl λ d. d
