-- ===== src/Tests/Storage.antt =====
-- Views, buffers, arrays and the table of types at concrete values.
use mathlib.Core.Option.{some-injective}
use arnel_lang.Prelude.{
  ℕ, drop, ◌⊎◌, ◌-◌, ◌<◌, ◌≤◌, ◌≡◌, ◌↔◌, refl, Bool, true, Option, none, some, List, [], ◌∷◌, ◌++◌,
  ◌>>=◌, ◌%◌, ◌^◌, length, take, arith, sym, ap, ◌∙◌, length-append, length-replicate,
  take-length-append, replicate,
}
use arnel_lang.Prelude.Size.{sub_size}
use arnel_lang.View.{View, no_view, make, content, chopn, cmp_eq}
use arnel_lang.View.Laws as ViewLaws
use arnel_lang.DynArray.{DynArray, append, remove}
use arnel_lang.DynArray.Laws.{Holds, append-Holds, take-all}
use arnel_lang.DynArray.Remove.{remove-Holds, remove-full}
use arnel_lang.Buf.{
  Buf, Outcome, Realloc, write_sized, write_cstr, write_longlong_le, write_fixed, write_view,
  write_short_le, write_long_le, write_short_be, write_long_be, write_longlong_be, get_view,
}
use arnel_lang.Buf.Laws.{
  contents, IsRealloc, IsValid, Appends, write_fixed-Appends, write_sized-Appends,
  write_view-Appends, write_cstr-full,
}
use arnel_lang.Buf.Words.{Writes, le_value, be_value, write_le-Writes, write_be-Writes}
use arnel_lang.Buf.Slices.{get_view-content}
use arnel_lang.Lexer.Keyword.{codes}
use arnel_lang.Types.{
  TypeSystem, TypeEntry, alloc_type, get_type, get_type_for_name, init_typesystem,
  alloc_type_from_cstr,
}
use arnel_lang.Types.Laws as TypesLaws

abbrev at_literal : List ℕ → View
at_literal bs = make (record { addr = 64; bytes = bs }) (length bs)

abbrev word : View
word = at_literal (codes "arnel")

word-IsValid : ViewLaws.IsValid word
word-IsValid = omega arith

chopn-splits_example :
    (content (chopn word 2).0 ++ content (chopn word 2).1 ≡ content word)
    × ViewLaws.IsValid (chopn word 2).1
    × ((chopn word 2).1.len ≡ 3)
chopn-splits_example = ViewLaws.chopn-splits {v = word} 2 word-IsValid (omega arith)

cmp_eq-content_example :
    (r : Bool) × (cmp_eq word word ≡ some r) × ((r ≡ true) ↔ (content word ≡ content word))
cmp_eq-content_example =
    ViewLaws.cmp_eq-content word word word-IsValid word-IsValid (omega arith) (omega arith)

-- An array with one item and no spare slot, and one with a spare slot.
abbrev full_array : DynArray ℕ
full_array = record { cap = 1; len = 1; slots = some 7 ∷ [] }

full_array-Holds : Holds full_array (7 ∷ [])
full_array-Holds = record { spare = []; slots = refl; len = refl; cap = refl; small = omega arith }

append-Holds_example :
    (da : DynArray ℕ) × (append true full_array 8 ≡ some (true, da))
    × Holds da (7 ∷ 8 ∷ [])
    × (1 ≤ da.cap)
append-Holds_example =
    append-Holds full_array (7 ∷ []) 8 full_array-Holds (omega arith) (omega arith)

remove-full_example : remove none full_array 0 ≡ none
remove-full_example = remove-full full_array [] [] 7 full_array-Holds refl

abbrev roomy_array : DynArray ℕ
roomy_array = record { cap = 4; len = 3; slots = some 7 ∷ some 8 ∷ some 9 ∷ none ∷ [] }

remove-Holds_example :
    (da : DynArray ℕ) × (remove none roomy_array 1 ≡ some (some 8, da))
    × Holds da (7 ∷ 9 ∷ [])
    × (da.cap ≡ 4)
remove-Holds_example =
    remove-Holds none roomy_array (7 ∷ []) (9 ∷ []) 8
      (record { spare = none ∷ []; slots = refl; len = refl; cap = refl; small = omega arith }) none
      refl

-- An allocator that always has memory: the old bytes, and zeros behind them.
abbrev zeroing : Realloc
zeroing mem n = some (take n mem ++ replicate (n - length mem) 0)

zeroing-IsRealloc : IsRealloc zeroing
zeroing-IsRealloc mem n m e h =
    let new : mem ++ replicate (n - length mem) 0 ≡ m =
      ap (λ front. front ++ replicate (n - length mem) 0) (sym (take-all n mem h))
      ∙ some-injective _ _ e in
    rw (← new) (
      omega (
        arith,
        length-append mem (replicate (n - length mem) 0),
        length-replicate {A = ℕ} (n - length mem) 0,
      ),
      take-length-append mem (replicate (n - length mem) 0),
    )

abbrev small_buf : Buf
small_buf = record { len = 2; cap = 2; mem = 104 ∷ 105 ∷ [] }

small_buf-IsValid : IsValid small_buf
small_buf-IsValid = omega arith

write_fixed-Appends_example :
    (o : Outcome) × (write_fixed zeroing (33 ∷ []) small_buf ≡ some o)
    × Appends zeroing 12 small_buf (33 ∷ []) o
write_fixed-Appends_example =
    write_fixed-Appends zeroing zeroing-IsRealloc small_buf small_buf-IsValid (33 ∷ [])
      (omega arith)

write_sized-Appends_example :
    (o : Outcome) × (write_sized zeroing small_buf (codes "abc") 2 ≡ some o)
    × Appends zeroing 4 small_buf (codes "ab") o
write_sized-Appends_example =
    write_sized-Appends zeroing zeroing-IsRealloc small_buf small_buf-IsValid (codes "abc") 2
      (omega arith)

write_view-Appends_example :
    (o : Outcome) × (write_view zeroing small_buf word ≡ some o)
    × Appends zeroing 7 small_buf (content word) o
write_view-Appends_example =
    write_view-Appends zeroing zeroing-IsRealloc small_buf small_buf-IsValid word word-IsValid

write_cstr-full_example : write_cstr zeroing small_buf (codes "ab") ≡ none
write_cstr-full_example =
    write_cstr-full zeroing zeroing-IsRealloc small_buf small_buf-IsValid (codes "ab")
      (104 ∷ 105 ∷ 0 ∷ 0 ∷ []) refl refl

write_le-Writes_example :
    Writes zeroing zeroing-IsRealloc small_buf small_buf-IsValid le_value 2
      (0x1_0203 % 2 ^ 16)
      (write_short_le zeroing small_buf 0x1_0203)
    × Writes zeroing zeroing-IsRealloc small_buf small_buf-IsValid le_value 4
        (0x1_0203 % 2 ^ 32)
        (write_long_le zeroing small_buf 0x1_0203)
    × Writes zeroing zeroing-IsRealloc small_buf small_buf-IsValid le_value 8
        (0x1_0203 % 2 ^ 64)
        (write_longlong_le zeroing small_buf 0x1_0203)
write_le-Writes_example =
    write_le-Writes zeroing zeroing-IsRealloc small_buf small_buf-IsValid 0x1_0203

write_be-Writes_example :
    Writes zeroing zeroing-IsRealloc small_buf small_buf-IsValid be_value 2
      (0x1_0203 % 2 ^ 16)
      (write_short_be zeroing small_buf 0x1_0203)
    × Writes zeroing zeroing-IsRealloc small_buf small_buf-IsValid be_value 4
        (0x1_0203 % 2 ^ 32)
        (write_long_be zeroing small_buf 0x1_0203)
    × Writes zeroing zeroing-IsRealloc small_buf small_buf-IsValid be_value 8
        (0x1_0203 % 2 ^ 64)
        (write_longlong_be zeroing small_buf 0x1_0203)
write_be-Writes_example =
    write_be-Writes zeroing zeroing-IsRealloc small_buf small_buf-IsValid 0x1_0203

get_view-content_example :
    ViewLaws.IsValid (get_view 4096 small_buf 1 2)
    × (((1 < 2)
          × (2 ≤ small_buf.len)
          × (content (get_view 4096 small_buf 1 2) ≡ take (2 - 1) (drop 1 (contents small_buf))))
        ⊎ (((2 ≤ 1) ⊎ (small_buf.len < 2)) × (get_view 4096 small_buf 1 2 ≡ no_view)))
get_view-content_example = get_view-content 4096 small_buf 1 2 small_buf-IsValid (omega arith)

-- `init_typesystem` registers twelve types, and `int` has the id 8.
init_typesystem_int :
    (init_typesystem 64 >>= λ ts.
    get_type_for_name ts (at_literal (codes "int")) >>= λ t. t >>= λ e. some e.type_id)
    ≡ some 8
unfolding init_typesystem alloc_type_from_cstr get_type_for_name cmp_eq sub_size
init_typesystem_int = refl

abbrev two_types : TypeSystem
two_types = record {
  len = 2;
  cap = 20;
  bytes = 640;
  types =
      record { typename = at_literal (codes "float"); type_id = 0; type_info = none }
      ∷ record { typename = word; type_id = 1; type_info = none }
      ∷ [];
}

two_types-IsValid : TypesLaws.IsValid two_types
two_types-IsValid = omega arith

alloc_type-get_type_example :
    (ts : TypeSystem) × (alloc_type two_types word ≡ some (2, ts))
    × TypesLaws.IsValid ts
    × (get_type ts 2 ≡ some (some (record { typename = word; type_id = 2; type_info = none })))
    × ((i : ℕ) → i < 2 → get_type ts i ≡ get_type two_types i)
alloc_type-get_type_example =
    TypesLaws.alloc_type-get_type two_types word two_types-IsValid (omega arith) word-IsValid

alloc_type-full_example : alloc_type (record two_types { cap = 2; bytes = 64 }) word ≡ none
alloc_type-full_example =
    TypesLaws.alloc_type-full (record two_types { cap = 2; bytes = 64 }) word refl

get_type_for_name-FirstNamed_example :
    (r : Option TypeEntry) × (get_type_for_name two_types word ≡ some r)
    × TypesLaws.FirstNamed word two_types.types r
get_type_for_name-FirstNamed_example =
    TypesLaws.get_type_for_name-FirstNamed two_types word two_types-IsValid word-IsValid
      (omega arith) (omega arith, (omega arith, refl))
