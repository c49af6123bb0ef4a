-- ===== src/Web/QueryString.antt =====
-- query_string (include/server_lib/network/web/web_entities.h). A case_insensitive_multimap is the
-- list of its fields, in the order in which it is iterated, or in which they were emplaced.
pub mod RoundTrip
use barbacoa_server_lib.Prelude.{
  ℕ, zero, suc, ◌+◌, ◌-◌, Bool, true, false, List, [], ◌∷◌, ◌++◌, Option, none, some, length,
  is_empty, ltb, ◌==◌, if◌then◌else◌, substr, substr_end,
}
use barbacoa_server_lib.Web.Percent.{encode, decode}

abbrev pub Field : Type 0
Field = List ℕ × List ℕ

-- The loop of `create`; the flag is its `first`.
unfoldable pub create_from : Bool → List Field → List ℕ
create_from first [] = []
create_from first ((name, value) ∷ fields) =
    (if first then [] else b'&' ∷ [])
    ++ (name ++ (b'=' ∷ (encode value ++ create_from false fields)))

unfoldable pub create : List Field → List ℕ
unfolding create_from
create fields = create_from true fields

-- The variables of the loop of `parse`; `none` is npos.
pub record Scan : Type 0 where
  pub name_pos : ℕ
  pub name_end_pos : Option ℕ
  pub value_pos : Option ℕ
  pub fields : List Field

abbrev pub or_else : Option ℕ → ℕ → ℕ
or_else none c = c
or_else (some e) c = e

abbrev pub value_before : List ℕ → Option ℕ → ℕ → List ℕ
value_before q none c = []
value_before q (some v) c = substr q v (c - v)

abbrev pub emplace : List Field → List ℕ → List ℕ → List Field
emplace fields name value = if is_empty name then fields else fields ++ ((name, decode value) ∷ [])

unfoldable pub step : List ℕ → ℕ → ℕ → Scan → Scan
step q ch c st =
    if ch == b'&'
    then record {
      name_pos = c + 1;
      name_end_pos = none;
      value_pos = none;
      fields =
          emplace st.fields (substr q st.name_pos (or_else st.name_end_pos c - st.name_pos))
            (value_before q st.value_pos c);
    }
    else (if ch == b'=' then record st { name_end_pos = some c; value_pos = some (c + 1) } else st)

-- The loop over `c`; the second list is what is left of the text from `c` on.
unfoldable pub scan : List ℕ → List ℕ → ℕ → Scan → Scan
unfolding step
scan q [] c st = st
scan q (ch ∷ rest) c st = scan q rest (c + 1) (step q ch c st)

abbrev pub last_name : List ℕ → ℕ → Option ℕ → List ℕ
last_name q pos none = substr_end q pos
last_name q pos (some e) = substr q pos (e - pos)

abbrev pub last_value : List ℕ → Option ℕ → List ℕ
last_value q none = []
last_value q (some v) = if ltb v (length q) then substr_end q v else []

unfoldable pub finish : List ℕ → Scan → List Field
finish q st =
    if ltb st.name_pos (length q)
    then emplace st.fields (last_name q st.name_pos st.name_end_pos) (last_value q st.value_pos)
    else st.fields

unfoldable pub parse : List ℕ → List Field
unfolding scan finish
parse q =
    if is_empty q
    then []
    else finish q
        (scan q q 0 (record { name_pos = 0; name_end_pos = none; value_pos = none; fields = [] }))
