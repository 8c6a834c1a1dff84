-- ===== src/Graph/Ir.antt =====
-- The graph IR of crates/onnx-vulkan-core/src/graph.rs: attributes, nodes and graphs. A float is the bits
-- of an f32. The maps of attributes and initializers are association lists, with one entry for a name.
use onnx_vulkan_rs_edge.Prelude.{
  ℕ, Bool, false, not, ◌||◌, List, [], ◌∷◌, ◌++◌, Option, none, some, if◌then◌else◌, String, str_eq,
  ℤ,
}
use onnx_vulkan_rs_edge.Graph.Initializer.{InitializerIr}

-- A graph that an attribute holds is a `Subgraph`, whose nodes are a list of their own.
mutual
  pub data AttrValue : Type 0 where
    int : ℤ → AttrValue
    ints : List ℤ → AttrValue
    float : ℕ → AttrValue
    floats : List ℕ → AttrValue
    string : String → AttrValue
    tensor : InitializerIr → AttrValue
    graph : Subgraph → AttrValue

  pub data Attributes : Type 0 where
    no_attrs : Attributes
    attr : String → AttrValue → Attributes → Attributes

  -- domain, op, since_version, name, inputs, outputs, attrs
  pub data NodeIr : Type 0 where
    node_ir : String → String → ℤ → String → List String → List String → Attributes → NodeIr

  pub data Nodes : Type 0 where
    no_nodes : Nodes
    node : NodeIr → Nodes → Nodes

  -- nodes, initializers, inputs, outputs
  pub data Subgraph : Type 0 where
    subgraph : Nodes → List (String × InitializerIr) → List String → List String → Subgraph

-- The graph of a session.
pub record GraphIr : Type 0 where
  pub nodes : List NodeIr
  pub initializers : List (String × InitializerIr)
  pub inputs : List String
  pub outputs : List String

abbrev pub domain : NodeIr → String
domain (node_ir d op v name ins outs attrs) = d

abbrev pub op : NodeIr → String
op (node_ir d o v name ins outs attrs) = o

abbrev pub inputs_of : NodeIr → List String
inputs_of (node_ir d o v name ins outs attrs) = ins

abbrev pub outputs_of : NodeIr → List String
outputs_of (node_ir d o v name ins outs attrs) = outs

abbrev pub attrs_of : NodeIr → Attributes
attrs_of (node_ir d o v name ins outs attrs) = attrs

unfoldable pub get_attr : String → Attributes → Option AttrValue
get_attr key no_attrs = none
get_attr key (attr k v rest) = if str_eq k key then some v else get_attr key rest

abbrev pub as_i64 : AttrValue → Option ℤ
as_i64 (int i) = some i
as_i64 v = none

abbrev pub as_tensor : AttrValue → Option InitializerIr
as_tensor (tensor t) = some t
as_tensor v = none

abbrev pub as_ints : AttrValue → Option (List ℤ)
as_ints (ints is) = some is
as_ints v = none

abbrev pub as_str : AttrValue → Option String
as_str (string s) = some s
as_str v = none

abbrev pub as_f32 : AttrValue → Option ℕ
as_f32 (float f) = some f
as_f32 v = none

abbrev pub as_graph : AttrValue → Option Subgraph
as_graph (graph g) = some g
as_graph v = none

-- Whether a name stands in a list.
abbrev pub has : List String → String → Bool
has [] name = false
has (x ∷ xs) name = str_eq x name || has xs name

abbrev pub is_empty : String → Bool
is_empty name = str_eq name ""

abbrev pub outputs_in : Nodes → List String
outputs_in no_nodes = []
outputs_in (node n rest) = outputs_of n ++ outputs_in rest

abbrev pub inputs_in : Nodes → List String
inputs_in no_nodes = []
inputs_in (node n rest) = inputs_of n ++ inputs_in rest

-- `constant_outputs`: what the `Constant` nodes give; a later entry replaces an earlier one.
unfoldable pub constant_of : NodeIr → Option (String × InitializerIr)
unfolding get_attr
constant_of (node_ir d o v name ins [] attrs) = none
constant_of (node_ir d o v name ins (out ∷ outs) attrs) =
    if not (str_eq o "Constant") || not (is_empty d) then none else elim (get_attr "value" attrs) [
      | none ↦ none
      | some value ↦ elim (as_tensor value) [ none ↦ none | some t ↦ some (out, t) ]
    ]

unfoldable pub constants_from :
    List (String × InitializerIr) → List NodeIr → List (String × InitializerIr)
unfolding constant_of
constants_from found [] = found
constants_from found (n ∷ nodes) = elim (constant_of n) [
  | none ↦ constants_from found nodes
  | some entry ↦ constants_from (entry ∷ found) nodes
]

unfoldable pub constant_outputs : List NodeIr → List (String × InitializerIr)
unfolding constants_from
constant_outputs nodes = constants_from [] nodes
