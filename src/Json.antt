-- ===== src/Json.antt =====
-- The frozen JSON values of packages/jharness-kernel/src/jharness/kernel/json_values.py, as the
-- kernel's dataclasses carry them. A float is the text of its `float.hex()`, an integer a sign and
-- a magnitude; a mapping is the list of its entries.
pub mod Keys
pub mod Depth
pub mod Equal
pub mod Canonical
use jharness.Common.{String, Bool, ℤ}

mutual
  pub data Json : Type 0 where
    null : Json
    boolean : Bool → Json
    integer : ℤ → Json
    float string : String → Json
    array : Items → Json
    object : Entries → Json

  pub data Items : Type 0 where
    no_item : Items
    item : Json → Items → Items

  pub data Entries : Type 0 where
    no_entry : Entries
    entry : String → Json → Entries → Entries
