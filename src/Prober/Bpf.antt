-- ===== src/Prober/Bpf.antt =====
-- The classic-BPF program that every tap wears, and the interpreter that runs it:
-- src/prober/bpf.rs. A load past the frame's end drops the frame, as in the kernel.
pub mod Exact
pub mod Evidence
mod Tests
use cfab.Prelude.{
  ℕ, zero, suc, ◌+◌, Bool, true, false, List, [], ◌∷◌, Option, none, some, ◌==◌, if◌then◌else◌,
}
use cfab.Prelude.Bytes.{Bytes, get_range, get_byte, be16, be32}

pub record Insn : Type 0 where
  pub code : ℕ
  pub jt : ℕ
  pub jf : ℕ
  pub k : ℕ

abbrev pub insn : ℕ → ℕ → ℕ → ℕ → Insn
insn code jt jf k = record { code = code; jt = jt; jf = jf; k = k }

abbrev pub ld_h_abs : ℕ
ld_h_abs = 0x28

abbrev pub ld_b_abs : ℕ
ld_b_abs = 0x30

abbrev pub ld_w_abs : ℕ
ld_w_abs = 0x20

abbrev pub jeq_k : ℕ
jeq_k = 0x15

abbrev pub ret_k : ℕ
ret_k = 0x06

abbrev pub ethertype_arp : ℕ
ethertype_arp = 0x0806

abbrev pub ethertype_ipv4 : ℕ
ethertype_ipv4 = 0x0800

abbrev pub ipproto_ospf : ℕ
ipproto_ospf = 89

abbrev pub all_spf_routers : ℕ
all_spf_routers = 0xe000_0005

abbrev pub accept : ℕ
accept = 0x0004_0000

-- `FILTER`.
abbrev pub program : List Insn
program =
    insn ld_h_abs 0 0 12
    ∷ insn jeq_k 5 0 ethertype_arp
    ∷ insn jeq_k 0 5 ethertype_ipv4
    ∷ insn ld_b_abs 0 0 23
    ∷ insn jeq_k 0 3 ipproto_ospf
    ∷ insn ld_w_abs 0 0 30
    ∷ insn jeq_k 0 1 all_spf_routers
    ∷ insn ret_k 0 0 accept
    ∷ insn ret_k 0 0 0
    ∷ []

-- What one round of the loop does: return, go on at an instruction with an accumulator, or panic
-- at an opcode that the interpreter does not know.
pub data Step : Type 0 where
  ret : ℕ → Step
  next : ℕ → ℕ → Step
  unknown_opcode : Step

abbrev pub loaded : ℕ → (Bytes → ℕ) → Option Bytes → Step
loaded pc read none = ret 0
loaded pc read (some b) = next pc (read b)

abbrev pub loaded_byte : ℕ → Option ℕ → Step
loaded_byte pc none = ret 0
loaded_byte pc (some b) = next pc b

-- `pc` is already past the instruction.
abbrev pub round : Insn → ℕ → ℕ → Bytes → Step
round i pc a frame =
    if i.code == ld_b_abs
    then loaded_byte pc (get_byte frame i.k)
    else if i.code == ld_h_abs
    then loaded pc be16 (get_range frame i.k (i.k + 2))
    else if i.code == ld_w_abs
    then loaded pc be32 (get_range frame i.k (i.k + 4))
    else if i.code == jeq_k
    then next (if a == i.k then pc + i.jt else pc + i.jf) a
    else if i.code == ret_k
    then ret i.k
    else unknown_opcode

abbrev pub fetch : List Insn → ℕ → Option Insn
fetch [] pc = none
fetch (i ∷ is) zero = some i
fetch (i ∷ is) (suc pc) = fetch is pc

abbrev pub step : List Insn → ℕ → ℕ → Bytes → Step
step prog pc a frame = elim (fetch prog pc) [ none ↦ ret 0 | some i ↦ round i (suc pc) a frame ]

pub data Outcome : Type 0 where
  returned : ℕ → Outcome
  panicked : Outcome

-- The loop, with what is left of its budget of instructions.
pub exec : ℕ → List Insn → ℕ → ℕ → Bytes → Outcome
exec zero prog pc a frame = panicked
exec (suc budget) prog pc a frame = elim (step prog pc a frame) [
  | ret k ↦ returned k
  | next pc' a' ↦ exec budget prog pc' a' frame
  | unknown_opcode ↦ panicked
]

pub run : List Insn → Bytes → Outcome
unfolding exec
run prog frame = exec 4096 prog 0 0 frame
