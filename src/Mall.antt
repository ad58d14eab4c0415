-- ===== src/Mall.antt =====
-- internal/mall: the map of a mall (map.go) and the routes over it.
pub mod Graph
pub mod Routes
mod Examples
use sai_aurosy.Prelude.{Bool, List, String}
use sai_aurosy.Prelude.Int.{ℤ}

module _ (W : Type 0) where
  pub record Coordinates : Type 0 where
    pub x : W
    pub y : W

  pub record NavNode : Type 0 where
    pub id : String
    pub name : String
    pub floor_id : String
    pub zone : String
    pub coordinates : Coordinates
    pub kind : String

  pub record NavEdge : Type 0 where
    pub from_id : String
    pub to_id : String
    pub distance : W
    pub bidirectional : Bool

  pub record Floor : Type 0 where
    pub id : String
    pub name : String
    pub level : ℤ

  pub record StoreLocation : Type 0 where
    pub store_name : String
    pub floor_id : String
    pub zone : String
    pub node_id : String

  pub record MallMap : Type 0 where
    pub id : String
    pub name : String
    pub floors : List Floor
    pub nodes : List NavNode
    pub edges : List NavEdge
    pub stores : List StoreLocation
    pub base_point : String
