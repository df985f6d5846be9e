-- ===== src/Tests/Types.antt =====
-- Type specifications: compiler/ast/symbols.cpp and module_intf.cpp.
use dq_lang.DqmIf.Reader.{Reader, empty_reader}
use dq_lang.DqmIf.Records.{reader_at}
use dq_lang.DqmIf.Writer.{Writer}
use dq_lang.Prelude.{
  ◌≡◌, refl, true, none, some, [], ◌∷◌, ◌++◌, arith, length, if◌then◌else◌, same_text,
}
use dq_lang.TypeSpec.Types.{
  Ty, kind, resolve_alias, object, simple, alias, pointer, array, autofree, object_type,
}
use dq_lang.TypeSpec.Read.{Names, after_next, read_type_spec}
use dq_lang.TypeSpec.Write.{write_type_spec}
use dq_lang.TypeSpec.RoundTrip.{read_type_spec-write_type_spec}
use dq_lang.TypeSpec.Written.{write_type_spec_endless}

abbrev writer : Writer
writer = record { payload = []; error = none }

abbrev int : Ty
int = simple [] (105 ∷ [])

abbrev window : Ty
window = object (103 ∷ []) (87 ∷ [])

-- The name i, and the name W of the module g.
abbrev names : Names
names = record {
  resolve_type_name = λ n. if same_text n (105 ∷ []) then some int else none;
  resolve_qualified_type = λ m n. if same_text n (87 ∷ []) then some window else none;
  read_function_ref = λ r b. some (r, none);
}

-- ^[3]autofree g.W
abbrev sample : Ty
sample = pointer (array (autofree window) 3)

read_type_spec-write_type_spec_example :
    (w' : Writer) × (write_type_spec 4 writer sample ≡ some (w', true))
    × (w'.error ≡ none)
    × let p = w'.payload ++ 9 ∷ [] in
      (m : Reader) × (after_next (read_type_spec names 5) (reader_at p 0 empty_reader)
        ≡ some (m, some sample))
      × (reader_at p (length w'.payload) m ≡ m)
unfolding kind resolve_alias
read_type_spec-write_type_spec_example =
    read_type_spec-write_type_spec names sample 4 writer (9 ∷ []) empty_reader (omega arith)
      (omega arith, (refl, (((λ e. omega arith), omega arith, ((λ e. omega arith), tt)), refl)))
      refl

write_type_spec_endless_example :
    write_type_spec 9 writer (alias [] (84 ∷ []) (object_type [] (87 ∷ []))) ≡ none
unfolding kind
write_type_spec_endless_example =
    write_type_spec_endless 9 writer [] (84 ∷ []) (object_type [] (87 ∷ [])) refl refl
