-- ===== src/TrustedOs/Layout.antt =====
-- The memory of the OS, of DMA and of the applet: trusted_os/mem.go, trusted_os/mem_bee.go and
-- trusted_os/dma.go.
use armored_witness_os.Base.{
  ℕ, ◌+◌, ◌^◌, ◌≤◌, ◌⊎◌, Bool, if◌then◌else◌, Option, none, some, Result, ok, err, halt, M, ◌>>=◌,
  ◌>>◌, pure, arith,
}

pub record Region : Type 0 where
  pub start : ℕ
  pub size : ℕ

-- `secureStart`, `secureDMAStart` and `appletStart` with their sizes; `vecTableStart`, where the build
-- overrides it.
pub record Layout : Type 0 where
  pub secure : Region
  pub secure_dma : Region
  pub applet : Region
  pub vec_table_start : Option ℕ

abbrev pub plain_layout : Layout
plain_layout = record {
  secure = record { start = 0x80000000; size = 0x0e000000 };
  secure_dma = record { start = 0x8e000000; size = 0x02000000 };
  applet = record { start = 0x90000000; size = 0x10000000 };
  vec_table_start = none;
}

-- With memory encryption (the build tag bee): aliases of the memory, except for DMA and the page
-- tables.
abbrev pub bee_layout : Layout
bee_layout = record {
  secure = record { start = 0x10000000; size = 0x0e000000 };
  secure_dma = record { start = 0x8e000000; size = 0x02000000 };
  applet = record { start = 0x20000000; size = 0x10000000 };
  vec_table_start = some 0x80000000;
}

-- `dma.NewRegion`, whose error leaves nil, `Reserve` and `dma.Init` of TamaGo, the attributes of
-- memory, and the field `DeriveKeyMemory` of a crypto unit.
pub record MemoryUnits (R W : Type 0) : Type 0 where
  pub new_region : ℕ → ℕ → M W R
  pub reserve : Option R → ℕ → ℕ → M W (Unit {0})
  pub dma_init : ℕ → ℕ → W → W
  pub has_caam : Bool
  pub has_dcp : Bool
  pub set_caam_memory : Option R → W → W
  pub set_dcp_memory : Option R → W → W
  pub ocram : Region
  pub execute_never : ℕ
  pub set_attribute : ℕ → ℕ → ℕ → ℕ → W → W

module _ {R W : Type 0} (units : MemoryUnits R W) where
  -- An error is not looked at.
  abbrev pub region_or_nil : Result R × W → Result (Option R) × W
  region_or_nil (ok r, w) = (ok (some r), w)
  region_or_nil (err e, w) = (ok none, w)
  region_or_nil (halt, w) = (halt, w)

  abbrev pub made : Region → M W (Option R)
  made r w = region_or_nil (units.new_region r.start r.size w)

  -- The crypto unit that derives keys gets the memory to do so in.
  abbrev pub set_derive_key_memory : Option R → W → W
  set_derive_key_memory memory w =
      if units.has_caam
      then units.set_caam_memory memory w
      else if units.has_dcp
      then units.set_dcp_memory memory w
      else w

  -- `init` of dma.go, with `appletRegion`
  unfoldable pub init_dma : Layout → M W (Option R)
  init_dma l = do
    applet_region ← made l.applet
    units.reserve applet_region l.applet.size 0
    λ w. (ok tt, units.dma_init l.secure_dma.start l.secure_dma.size w)
    derive_key_memory ← made units.ocram
    λ w. (ok tt, set_derive_key_memory derive_key_memory w)
    pure applet_region

  -- `init` of mem_bee.go: no code runs from the first MiB of the tables.
  unfoldable pub init_bee : Layout → W → W
  init_bee l w = elim l.vec_table_start [
    | none ↦ w
    | some start ↦ units.set_attribute start (start + 2 ^ 20) units.execute_never 0 w
  ]

abbrev Apart : Region → Region → Type 0
Apart a b = (a.start + a.size ≤ b.start) ⊎ (b.start + b.size ≤ a.start)

abbrev Ends : Region → Type 0
Ends r = r.start + r.size ≤ 2 ^ 32

abbrev tables : ℕ → Region
tables start = record { start = start; size = 2 ^ 20 }

-- The tables, where the build moves them.
abbrev TablesApart : Layout → Option ℕ → Type 0
TablesApart l none = Unit
TablesApart l (some start) =
    Apart (tables start) l.secure
    × Apart (tables start) l.secure_dma
    × Apart (tables start) l.applet

-- Memory of 32 bits in which no region overlaps another.
record IsSeparate (l : Layout) : Type 0 where
  secure_dma : Apart l.secure l.secure_dma
  secure_applet : Apart l.secure l.applet
  dma_applet : Apart l.secure_dma l.applet
  own_tables : TablesApart l l.vec_table_start
  ends : Ends l.secure × Ends l.secure_dma × Ends l.applet

-- In both layouts the regions of the OS, of DMA, of the applet and, where they are moved, of the page
-- tables do not overlap, and end within 32 bits.
layout-IsSeparate : IsSeparate plain_layout × IsSeparate bee_layout
layout-IsSeparate = (
  record {
    secure_dma = omega arith;
    secure_applet = omega arith;
    dma_applet = omega arith;
    own_tables = tt;
    ends = omega arith;
  },
  record {
    secure_dma = omega arith;
    secure_applet = omega arith;
    dma_applet = omega arith;
    own_tables = omega arith;
    ends = omega arith;
  },
)
