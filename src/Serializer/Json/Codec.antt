-- ===== src/Serializer/Json/Codec.antt =====
-- src/pysilience/cache_serializer_json.py: `dumps` and `loads`. The module `json` is modelled by the
-- walk over a value that calls `default`, and over a tree that calls `object_hook`; how a tree is
-- written to bytes and read from them is a parameter.
use pysilience.Prelude.{ℕ, zero, suc, Option, none, some, [], ◌∷◌, if◌then◌else◌}
use pysilience.Python.{
  Exc, value_error, recursion_error, unicode_decode_error_class, json_decode_error_class,
  is_instance, Result, ok, raise, and_then, Bytes,
}
use pysilience.Serializer.Protocol.{CacheSerializer}
use pysilience.Serializer.Json.Values.{
  Value, Items, Fields, null, boolean, number, string, array, tuple, dict, object, nil, cons, end,
  field, dict_of, Tree, Trees, Members, null_tree, boolean_tree, number_tree, text_tree, array_tree,
  object_tree, malformed, no_trees, tree, no_members, member,
}
use pysilience.Serializer.Json.Envelope.{Registry, envelope_encode, envelope_decode}

-- What the parser finds: a tree, and the error for data after it.
pub record Document (N : Type 0) : Type 0 where
  pub tree : Tree N
  pub extra : Option Exc

-- The texts of `json`: `write` may raise for a number that is too long, `read` for bytes that are no
-- text.
pub record JsonText (N : Type 0) : Type 0 where
  pub write : Tree N → Result Bytes
  pub read : Bytes → Result (Document N)

module _ {N O : Type 0} where
  -- The items of a list, and the entries of a dictionary, in order.
  abbrev pub trees_of : (Value N O → Result (Tree N)) → Items N O → Result (Trees N)
  trees_of walk nil = ok no_trees
  trees_of walk (cons v vs) =
      and_then (walk v) (λ t. and_then (trees_of walk vs) (λ ts. ok (tree t ts)))

  abbrev pub members_of : (Value N O → Result (Tree N)) → Fields N O → Result (Members N)
  members_of walk end = ok no_members
  members_of walk (field k v fs) =
      and_then (walk v) (λ t. and_then (members_of walk fs) (λ ms. ok (member k t ms)))

  -- The walk of `json.dumps(value, default=_envelope_encode)`; `limit` is how deep the interpreter
  -- lets it go.
  unfoldable pub to_tree : Registry N O → ℕ → Value N O → Result (Tree N)
  to_tree registry zero v = raise recursion_error
  to_tree registry (suc limit) null = ok null_tree
  to_tree registry (suc limit) (boolean b) = ok (boolean_tree b)
  to_tree registry (suc limit) (number n) = ok (number_tree n)
  to_tree registry (suc limit) (string s) = ok (text_tree s)
  to_tree registry (suc limit) (array vs) =
      and_then (trees_of (to_tree registry limit) vs) (λ ts. ok (array_tree ts))
  to_tree registry (suc limit) (tuple vs) =
      and_then (trees_of (to_tree registry limit) vs) (λ ts. ok (array_tree ts))
  to_tree registry (suc limit) (dict fs) =
      and_then (members_of (to_tree registry limit) fs) (λ ms. ok (object_tree ms))
  to_tree registry (suc limit) (object cls contents) =
      and_then (envelope_encode registry cls contents) (to_tree registry limit)

-- The walk of `json.loads(..., object_hook=_envelope_decode)`: the hook is called for each
-- dictionary once its entries are there.
unfoldable mutual
  pub from_tree : {N O : Type 0} → Registry N O → Tree N → Result (Value N O)
  from_tree registry null_tree = ok null
  from_tree registry (boolean_tree b) = ok (boolean b)
  from_tree registry (number_tree n) = ok (number n)
  from_tree registry (text_tree s) = ok (string s)
  from_tree registry (array_tree ts) = and_then (from_trees registry ts) (λ vs. ok (array vs))
  from_tree registry (object_tree ms) =
      and_then (from_members registry ms) (λ pairs. envelope_decode registry (dict_of pairs))
  from_tree registry (malformed exc) = raise exc

  pub from_trees : {N O : Type 0} → Registry N O → Trees N → Result (Items N O)
  from_trees registry no_trees = ok nil
  from_trees registry (tree t ts) =
      and_then (from_tree registry t)
        (λ v. and_then (from_trees registry ts) (λ vs. ok (cons v vs)))

  pub from_members : {N O : Type 0} → Registry N O → Members N → Result (Fields N O)
  from_members registry no_members = ok end
  from_members registry (member k t ms) =
      and_then (from_tree registry t)
        (λ v. and_then (from_members registry ms) (λ fs. ok (field k v fs)))

-- `except (UnicodeDecodeError, json.JSONDecodeError) as exc: raise ValueError(str(exc)) from exc`
unfoldable pub decoded {ℓ} : {A : Type ℓ} → Result A → Result A
decoded (ok v) = ok v
decoded (raise exc) =
    if is_instance exc (unicode_decode_error_class ∷ json_decode_error_class ∷ [])
    then raise value_error
    else raise exc

module _ {N O : Type 0} (text_of : JsonText N) where
  -- The value of a document, unless more data follows it.
  abbrev pub from_document : Registry N O → Document N → Result (Value N O)
  from_document registry doc =
      and_then (from_tree registry doc.tree)
        (λ v. elim doc.extra [ none ↦ ok v | some exc ↦ raise exc ])

  -- `dumps`
  unfoldable pub dumps : Registry N O → ℕ → Value N O → Result Bytes
  dumps registry limit value = and_then (to_tree registry limit value) text_of.write

  -- `loads`
  unfoldable pub loads : Registry N O → Bytes → Result (Value N O)
  loads registry raw = decoded (and_then (text_of.read raw) (from_document registry))

  abbrev pub json_serializer : Registry N O → ℕ → CacheSerializer (Value N O)
  json_serializer registry limit = record { dumps = dumps registry limit; loads = loads registry }
