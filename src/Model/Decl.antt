-- ===== src/Model/Decl.antt =====
-- The declaration as it was read, src/decl.rs: its tables, and the defaults of those that may be
-- missing. The reading itself is serde's and `toml`'s, and is not modelled: it gives the defaults of
-- keys that are missing in a table. A `BTreeMap` is the list of its entries by key.
use Prim.Native.String.{String}
use cfab.Prelude.{ℕ, Bool, true, List, Option}
use cfab.Model.{MemberKind, Dscp}

pub record WireDecl : Type 0 where
  pub nic : String
  pub domain : String
  pub speed_mbps : ℕ
  pub driver_features : Option String
  pub usb : Option Bool

pub record MemberWorkloadDecl : Type 0 where
  pub name : String
  pub address : String

pub record MemberDecl : Type 0 where
  pub name : String
  pub node : ℕ
  pub kind : MemberKind
  pub wires : List WireDecl
  pub prefs : List (String × List String)
  pub workloads : List MemberWorkloadDecl

pub record SegmentDecl : Type 0 where
  pub ifname : String
  pub domain : String
  pub seg : ℕ
  pub vid : ℕ

pub record UniversalDecl : Type 0 where
  pub ifname : String
  pub seg : ℕ
  pub vid : ℕ

pub record GwDecl : Type 0 where
  pub domain : String
  pub vid : ℕ
  pub router : String

pub record ZoneDecl : Type 0 where
  pub name : String
  pub id : ℕ
  pub pcp : ℕ
  pub dscp : Dscp
  pub floor_mbps : ℕ
  pub band : ℕ
  pub weight : ℕ
  pub primary : String
  pub segments : List SegmentDecl
  pub universal : Option UniversalDecl
  pub gw : Option GwDecl

pub record WorkloadDecl : Type 0 where
  pub name : String
  pub uplink : String
  pub vid : ℕ
  pub prefix : String
  pub gw : String
  pub dhcp_server : Option String
  pub allow : List String
  pub router : Option String
  pub span : Option String

pub record ForwardDecl : Type 0 where
  pub enabled : Bool
  pub allow : List String

pub record AdminDecl : Type 0 where
  pub floor_mbps : ℕ
  pub band : ℕ

abbrev pub default_admin : AdminDecl
default_admin = record { floor_mbps = 100; band = 1 }

pub record MarkingDecl : Type 0 where
  pub pcp_ctrl : ℕ
  pub set_dscp : Bool

abbrev pub default_marking : MarkingDecl
default_marking = record { pcp_ctrl = 6; set_dscp = true }

pub record CostDecl : Type 0 where
  pub leaf_offset : ℕ

abbrev pub default_cost : CostDecl
default_cost = record { leaf_offset = 30000 }

pub record BfdDecl : Type 0 where
  pub rx_ms : ℕ
  pub tx_ms : ℕ
  pub mult : ℕ
  pub port : ℕ

abbrev pub default_bfd : BfdDecl
default_bfd = record { rx_ms = 250; tx_ms = 250; mult = 3; port = 3784 }

pub record OspfDecl : Type 0 where
  pub hello_s : ℕ
  pub dead_s : ℕ

abbrev pub default_ospf : OspfDecl
default_ospf = record { hello_s = 1; dead_s = 3 }

pub record BgpDecl : Type 0 where
  pub asn : ℕ
  pub keepalive_s : ℕ
  pub hold_s : ℕ
  pub connect_s : ℕ

abbrev pub default_bgp : BgpDecl
default_bgp = record { asn = 65000; keepalive_s = 1; hold_s = 3; connect_s = 3 }

pub record RuntimeDecl : Type 0 where
  pub run_dir : String

abbrev pub default_runtime : RuntimeDecl
default_runtime = record { run_dir = "/run/cfab" }

pub record Declaration : Type 0 where
  pub dns_domain : String
  pub domains : List (String × String)
  pub members : List MemberDecl
  pub zones : List ZoneDecl
  pub workload : List WorkloadDecl
  pub forward : ForwardDecl
  pub admin : Option AdminDecl
  pub marking : Option MarkingDecl
  pub cost : Option CostDecl
  pub bfd : Option BfdDecl
  pub ospf : Option OspfDecl
  pub bgp : Option BgpDecl
  pub runtime : Option RuntimeDecl
