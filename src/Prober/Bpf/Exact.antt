-- ===== src/Prober/Bpf/Exact.antt =====
-- What the filter accepts, exactly, and that it hides no evidence from the parsers
-- (src/prober/bpf.rs, src/prober/frame.rs).
use cfab.Prelude.{
  ℕ, suc, ◌≡◌, refl, ◌∙◌, inl, inr, Bool, false, ◌&&◌, ◌||◌, Option, none, some, arith, ◌==◌,
  if◌then◌else◌, Bool-cases, Option-cases,
}
use cfab.Prelude.Bytes.{Bytes, range, get_range, get_byte, be16, be32}
use cfab.Prober.Bpf.{
  program, ethertype_arp, ethertype_ipv4, ipproto_ospf, all_spf_routers, accept, Step, step, ret,
  next, unknown_opcode, Outcome, returned, panicked, exec, run,
}

abbrev pub holds : {A : Type 0} → (A → Bool) → Option A → Bool
holds p none = false
holds p (some a) = p a

-- The specification: an ARP frame, or IPv4 with OSPF to AllSPFRouters, each field being there.
abbrev pub is_evidence : Bytes → Bool
is_evidence frame =
    holds (λ b. be16 b == ethertype_arp) (get_range frame 12 14)
    || (holds (λ b. be16 b == ethertype_ipv4) (get_range frame 12 14)
        && holds (λ b. b == ipproto_ospf) (get_byte frame 23)
        && holds (λ b. be32 b == all_spf_routers) (get_range frame 30 34))

-- The verdict that the tests of a suffix of the program lead to.
abbrev verdict : Bool → Outcome
verdict b = returned (if b then accept else 0)

abbrev to_routers : Bytes → Bool
to_routers frame = holds (λ b. be32 b == all_spf_routers) (get_range frame 30 34)

abbrev is_ospf : Bytes → Bool
is_ospf frame = holds (λ b. b == ipproto_ospf) (get_byte frame 23)

-- Where one step leads with `n` rounds left.
abbrev goes : ℕ → Step → Bytes → Outcome
goes n (ret k) frame = returned k
goes n (next pc a) frame = exec n program pc a frame
goes n unknown_opcode frame = panicked

-- What remains to be done at each instruction, last first, for any budget that is left over.
exec-goes :
    (n pc a : ℕ) (frame : Bytes)
    → exec (suc n) program pc a frame ≡ goes n (step program pc a frame) frame
unfolding exec
exec-goes n pc a frame = ends (step program pc a frame)
  where
    ends :
        (s : Step)
        → elim s [
          | ret k ↦ returned k
          | next pc' a' ↦ exec n program pc' a' frame
          | unknown_opcode ↦ panicked
        ]
          ≡ goes n s frame
    ends (ret k) = refl
    ends (next pc' a') = refl
    ends unknown_opcode = refl

module _ (frame : Bytes) (n : ℕ) where
  at_8 : (a : ℕ) → exec (suc n) program 8 a frame ≡ returned 0
  at_8 a = exec-goes n 8 a frame

  at_7 : (a : ℕ) → exec (suc n) program 7 a frame ≡ returned accept
  at_7 a = exec-goes n 7 a frame

module _ (frame : Bytes) where
  at_6 : (n a : ℕ) → exec (suc (suc n)) program 6 a frame ≡ verdict (a == all_spf_routers)
  at_6 n a = exec-goes (suc n) 6 a frame ∙ ground (arith, at_7 frame n a, at_8 frame n a)

  at_5 : (n a : ℕ) → exec (suc (suc (suc n))) program 5 a frame ≡ verdict (to_routers frame)
  at_5 n a = exec-goes (suc (suc n)) 5 a frame ∙ ground (arith, at_6 n (be32 (range 30 34 frame)))

  at_4 :
      (n a : ℕ)
      → exec (suc (suc (suc (suc n)))) program 4 a frame
        ≡ verdict (a == ipproto_ospf && to_routers frame)
  at_4 n a =
      exec-goes (suc (suc (suc n))) 4 a frame ∙ ground (arith, at_5 n a, at_8 frame (suc (suc n)) a)

  at_3 :
      (n a : ℕ)
      → exec (suc (suc (suc (suc (suc n))))) program 3 a frame
        ≡ verdict (is_ospf frame && to_routers frame)
  at_3 n a =
      exec-goes (suc (suc (suc (suc n)))) 3 a frame
      ∙ (elim (Option-cases (get_byte frame 23)) [ inl e ↦ rw e | inr (b, e) ↦ rw e (at_4 n b) ])

  at_2 :
      (n a : ℕ)
      → exec (suc (suc (suc (suc (suc (suc n)))))) program 2 a frame
        ≡ verdict (a == ethertype_ipv4 && is_ospf frame && to_routers frame)
  at_2 n a =
      exec-goes (suc (suc (suc (suc (suc n))))) 2 a frame
      ∙ (elim (Bool-cases (a == ethertype_ipv4)) [
        | inl e ↦ ground (arith, e, at_3 n a)
        | inr e ↦ ground (arith, e, at_8 frame (suc (suc (suc (suc n)))) a)
      ])

  at_1 :
      (n a : ℕ)
      → exec (suc (suc (suc (suc (suc (suc (suc n))))))) program 1 a frame
        ≡ verdict (a == ethertype_arp || (a == ethertype_ipv4 && is_ospf frame && to_routers frame))
  at_1 n a =
      exec-goes (suc (suc (suc (suc (suc (suc n)))))) 1 a frame
      ∙ (elim (Bool-cases (a == ethertype_arp)) [
        | inl e ↦ ground (arith, e, at_7 frame (suc (suc (suc (suc (suc n))))) a)
        | inr e ↦ ground (arith, e, at_2 n a)
      ])

  at_0 :
      (n : ℕ)
      → exec (suc (suc (suc (suc (suc (suc (suc (suc n)))))))) program 0 0 frame
        ≡ verdict (is_evidence frame)
  at_0 n =
      exec-goes (suc (suc (suc (suc (suc (suc (suc n))))))) 0 0 frame
      ∙ (elim (Option-cases (get_range frame 12 14)) [
        | inl e ↦ rw e
        | inr (b, e) ↦ rw e (at_1 n (be16 b))
      ])

-- On every frame the program returns, within its budget and without a panic, and it accepts the
-- frame exactly when the frame is evidence: ARP, or IPv4 with OSPF to AllSPFRouters.
pub run_exact :
    (frame : Bytes) → run program frame ≡ returned (if is_evidence frame then accept else 0)
unfolding run
run_exact frame = at_0 frame 4088
