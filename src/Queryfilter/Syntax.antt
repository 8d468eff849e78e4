-- ===== src/Queryfilter/Syntax.antt =====
-- op.go and node.go: the operators and the filter tree. `Op` and `LogicalOp` are strings.
use goth_scaffold.Prelude.{Text, codes}

abbrev pub Op : Type 0
Op = Text

abbrev pub LogicalOp : Type 0
LogicalOp = Text

abbrev pub op_eq : Op
op_eq = codes "eq"

abbrev pub op_ne : Op
op_ne = codes "ne"

abbrev pub op_gt : Op
op_gt = codes "gt"

abbrev pub op_lt : Op
op_lt = codes "lt"

abbrev pub op_gte : Op
op_gte = codes "gte"

abbrev pub op_lte : Op
op_lte = codes "lte"

abbrev pub op_prefix : Op
op_prefix = codes "prefix"

abbrev pub op_suffix : Op
op_suffix = codes "suffix"

abbrev pub op_like : Op
op_like = codes "like"

abbrev pub logical_and : LogicalOp
logical_and = codes "AND"

abbrev pub logical_or : LogicalOp
logical_or = codes "OR"

-- A `Node` that is not nil. A nil `Node` is `none` of `Option Node`.
pub data Node : Type 0 where
  comparison : Text → Op → Text → Node
  logical : LogicalOp → Node → Node → Node
