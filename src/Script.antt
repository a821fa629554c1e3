-- ===== src/Script.antt =====
-- src/script: the values that scripts and the proxy exchange, and what the Rhai engine gives.
pub mod Events
pub mod Hooks
pub mod Verdicts
pub mod Completions
pub mod Host
pub mod HostLaws
pub mod Store
mod Examples
use frame_mc.Prelude.{ℕ, List, Bool, Option, none, some, list_eq, if◌then◌else◌}

-- `rhai::Dynamic`, `rhai::Array` and `rhai::Map`. An integer is its bit pattern of 64 bits; values
-- of types that the code never reads are `other`.
mutual
  pub data Dynamic : Type 0 where
    unit : Dynamic
    boolean : Bool → Dynamic
    integer : ℕ → Dynamic
    string : List ℕ → Dynamic
    array : Array → Dynamic
    object : Map → Dynamic
    other : Dynamic

  pub data Array : Type 0 where
    nil : Array
    item : Dynamic → Array → Array

  pub data Map : Type 0 where
    end : Map
    entry : List ℕ → Dynamic → Map → Map

-- `map.get(key)`
unfoldable pub get : Map → List ℕ → Option Dynamic
get end key = none
get (entry k v rest) key = if list_eq k key then some v else get rest key

-- What the scripts can see of the proxy beside their arguments.
pub record Shared : Type 0 where
  pub servers : List (List ℕ)
  pub default_server : List ℕ
  pub kv_store : Map

-- The engine: compiled scripts, the functions that they define, and a call with one argument, which
-- may fail and may change the store of keys and values.
pub record Rhai : Type 1 where
  pub Ast : Type 0
  pub empty : Ast
  pub compile : List ℕ → Option Ast
  pub defines : Ast → List ℕ → Bool
  pub call : Ast → List ℕ → Map → Shared → Option Dynamic × Map
