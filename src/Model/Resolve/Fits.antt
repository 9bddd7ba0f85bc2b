-- ===== src/Model/Resolve/Fits.antt =====
-- The names of the interfaces that the fabric's parts are made of (src/model.rs, src/derive.rs).
use Prim.Native.Char.{len_utf8}
use Prim.Native.String.{String, len}
use Prim.Native.String
use text.Mathlib.TextPositions.{len-append}
use mathlib.Core.Option
use cfab.Prelude.{
  ℕ, ◌+◌, ◌-◌, ◌/◌, ◌%◌, ◌≤◌, ◌≡◌, refl, List, [], ◌∷◌, map, Option, none, some, All, All-mono,
  arith, leb, ltb, ◌==◌, if-both, if-cases, leb→le, filter, map_all, present,
}
use cfab.Prelude.Gives.{
  Gives, some-Gives, >>=-Gives, map_all-Gives, map-Gives, Held, nothing-Held, All-present,
  everywhere,
}
use cfab.Prelude.BTreeMap.{string_ord}
use cfab.Model.{
  Member, Wire, Workload, digit, decimal, gw_ifname, cut_to, leg_ifname, SegScope, on_domain,
  universal, is_universal, is_host, wire_on, Zone, ZoneGw, Segment, Fabric,
}
use cfab.Model.Derive.{
  Port, FallbackRow, GwRow, ports_of, home_wire, universal_cost, or_first, leg_at_home,
  fallback_row, fallback_rows_of, gw_home, gw_row, gw_rows_of,
}

digit-len : (n : ℕ) → len (digit n) ≡ 1
digit-len n =
    let One : String → Type 0 = λ s. len s ≡ 1 in
    if-both One (n == 0) _ _ refl (
      if-both One (n == 1) _ _ refl (
        if-both One (n == 2) _ _ refl (
          if-both One (n == 3) _ _ refl (
            if-both One (n == 4) _ _ refl (
              if-both One (n == 5) _ _ refl (
                if-both One (n == 6) _ _ refl
                  (if-both One (n == 7) _ _ refl (if-both One (n == 8) _ _ refl refl))))))))

decimal-len : (n : ℕ) → len (decimal n) ≤ 3
unfolding decimal
decimal-len n =
    let AtMost3 : String → Type 0 = λ s. len s ≤ 3 in
    if-both AtMost3 (ltb n 10) _ _ (omega (arith, digit-len n)) (
      if-both AtMost3 (ltb n 100) _ _
        (omega (
          arith,
          len-append (digit (n / 10)) (digit (n % 10)),
          digit-len (n / 10),
          digit-len (n % 10),
        ))
        (omega (
          arith,
          len-append (digit (n / 100)) (String.◌++◌ (digit (n / 10 % 10)) (digit (n % 10))),
          len-append (digit (n / 10 % 10)) (digit (n % 10)),
          digit-len (n / 100),
          digit-len (n / 10 % 10),
          digit-len (n % 10),
        )))

gw_ifname-len : (id : ℕ) → len (gw_ifname id) ≤ 10
unfolding gw_ifname
gw_ifname-len id = omega (arith, len-append "cfab-gw" (decimal id), decimal-len id)

cut_to-len : (room : ℕ) (s : String) → len (cut_to room s) ≤ room
unfolding cut_to
cut_to-len room String.[] = omega arith
cut_to-len room (String.◌∷◌ c s) =
    let rest = cut_to (room - len_utf8 c) s in
    let longer : len (String.◌∷◌ c rest) ≡ len_utf8 c + len rest = String.len.cons c rest in
    if-cases (λ t. len t ≤ room) (leb (len_utf8 c) room) _ _
      (λ fits. omega (arith, longer, cut_to-len (room - len_utf8 c) s, leb→le _ _ fits))
      λ over. omega arith

pub leg_ifname-len : (w : Workload) → len (leg_ifname w) ≤ 15
unfolding leg_ifname
leg_ifname-len w = omega (arith, len-append "cfab-work-" (cut_to 5 w.name), cut_to-len 5 w.name)

abbrev pub Short : String → Type 0
Short s = len s ≤ 15

abbrev pub PortFits : Port → Type 0
PortFits p = Short p.ifname

ports_of-Short :
    (ws : List Wire) (ifname : String)
    → All (λ (w : Wire). len w.domain ≡ 1) ws
    → len ifname ≤ 13
    → All PortFits (
        map
          (λ (w : Wire). record {
            ifname = String.◌++◌ ifname (String.◌++◌ "-" w.domain);
            wire = w.name;
          })
          ws)
ports_of-Short [] ifname a le = tt
ports_of-Short (w ∷ ws) ifname a le = (
  omega (arith, le, a.0, len-append ifname (String.◌++◌ "-" w.domain), len-append "-" w.domain),
  ports_of-Short ws ifname a.1 le,
)

-- The interface's own name, and those of its ports.
abbrev pub LegFits : FallbackRow → Type 0
LegFits r = Short r.ifname × All PortFits r.ports

abbrev pub GwFits : GwRow → Type 0
GwFits r = Short r.ifname × All PortFits r.ports

module _ (f : Fabric) (m : Member) (tokens : All (λ (w : Wire). len w.domain ≡ 1) m.wires) where
  leg_at_home-Fits :
      (r : Segment) (home : Option String)
      → len r.ifname ≤ 13
      → Gives (Held LegFits) (leg_at_home f r (ports_of m r.ifname) home)
  unfolding leg_at_home Held
  leg_at_home-Fits r none le = some-Gives (Held LegFits) none tt
  leg_at_home-Fits r (some home) le =
      >>=-Gives (λ _. Unit) (Held LegFits) (universal_cost f r.zone) _ (λ _ _. tt)
        λ cost _.
          some-Gives (Held LegFits) _ (omega (arith, le), ports_of-Short m.wires r.ifname tokens le)

  fallback_row-Fits : (r : Segment) → len r.ifname ≤ 13 → Gives (Held LegFits) (fallback_row f m r)
  unfolding fallback_row
  fallback_row-Fits r le =
      >>=-Gives {A = Option String} (λ _. Unit) (Held LegFits) (home_wire f m r.zone) _ (λ _ _. tt)
        λ home _. leg_at_home-Fits r (or_first home (ports_of m r.ifname)) le

  pub fallback_rows_of-Fits :
      All
        (λ (s : Segment). len s.ifname ≤ 13)
        (filter (λ (s : Segment). is_universal s.scope) f.segments)
      → Gives (All LegFits) (fallback_rows_of f m)
  unfolding fallback_rows_of
  fallback_rows_of-Fits a =
      let universals = filter (λ (s : Segment). is_universal s.scope) f.segments in
      map-Gives (All (Held LegFits)) (All LegFits) present (map_all (fallback_row f m) universals)
        (map_all-Gives (Held LegFits) (fallback_row f m) universals
          (All-mono _ _ universals fallback_row-Fits a))
        (All-present LegFits)

  abbrev HomeFits : String × List Port → Type 0
  HomeFits h = All PortFits h.1

  no_ports : (w : Option Wire) → Held HomeFits (Option.map (λ (w : Wire). (w.name, [])) w)
  unfolding Held
  no_ports none = tt
  no_ports (some w) = tt

  with_ports :
      (home : Option String) (ports : List Port)
      → All PortFits ports
      → Held HomeFits (Option.map (λ home. (home, ports)) home)
  unfolding Held
  with_ports none ports a = tt
  with_ports (some home) ports a = a

  gw_home-Fits : (z : Zone) (s : SegScope) → Gives (Held HomeFits) (gw_home f m z s)
  unfolding gw_home
  gw_home-Fits z (on_domain d) = some-Gives (Held HomeFits) _ (no_ports (wire_on d m))
  gw_home-Fits z universal =
      let ports = ports_of m (gw_ifname z.id) in
      let short = gw_ifname-len z.id in
      >>=-Gives {A = Option String} (λ _. Unit) (Held HomeFits) (home_wire f m z.name) _ (λ _ _. tt)
        λ home _. some-Gives (Held HomeFits) _ (
          with_ports (or_first home ports) ports
            (ports_of-Short m.wires (gw_ifname z.id) tokens (omega (arith, short))))

  row_of_home :
      (z : Zone) (gw : ZoneGw) (h : Option (String × List Port))
      → Held HomeFits h
      → Held GwFits (
          Option.map
            (λ (h : String × List Port). record {
              ifname = gw_ifname z.id;
              home = h.0;
              zone = z.name;
              vid = gw.vid;
              ports = h.1;
            })
            h)
  unfolding Held
  row_of_home z gw none a = tt
  row_of_home z gw (some h) a = (omega (arith, gw_ifname-len z.id), a)

  gw_row-Fits : (z : Zone) (g : Option ZoneGw) → Gives (Held GwFits) (gw_row f m z g)
  unfolding gw_row
  gw_row-Fits z none = some-Gives (Held GwFits) none (nothing-Held GwFits)
  gw_row-Fits z (some gw) =
      >>=-Gives (Held HomeFits) (Held GwFits) (gw_home f m z gw.scope) _ (gw_home-Fits z gw.scope)
        λ home a. some-Gives (Held GwFits) _ (row_of_home z gw home a)

  pub gw_rows_of-Fits : Gives (All GwFits) (gw_rows_of f m)
  unfolding gw_rows_of
  gw_rows_of-Fits =
      if-both (Gives (All GwFits)) (is_host m.kind) _ _
        (map-Gives (All (Held GwFits)) (All GwFits) present _
          (map_all-Gives (Held GwFits) (λ (z : Zone). gw_row f m z z.gw) f.zones
            (everywhere _ (λ (z : Zone). gw_row-Fits z z.gw) f.zones))
          (All-present GwFits))
        (some-Gives (All GwFits) [] tt)
