-- ===== src/Tests/Editor.antt =====
-- crates/lattice-editor-core: its unit tests' documents on the list rope, and the theorems there.
use abraxius_lattice.Base.{
  ℕ, ◌+◌, saturating_add, ◌≡◌, refl, false, List, [], ◌∷◌, ◌++◌, arith, ◌<◌, ◌≤◌, length, ◌-◌,
}
use abraxius_lattice.Base.Results.{ok, err}
use abraxius_lattice.Base.Text.{Text, codes, byte_len, len_utf8, as_bytes}
use abraxius_lattice.Editor.Rope.{char_of_byte}
use abraxius_lattice.Editor.Rope.Laws.{IsBoundary}
use abraxius_lattice.Editor.Types.{
  caret, start, end, replace, EditTransaction, EditorError, invalid_utf8_boundary, Document, home,
  right,
}
use abraxius_lattice.Editor.Edits.{
  sort_by_start, ensure_boundary, apply_operation, apply_operations, replace_bytes, undo_edits,
  redo_edits,
}
use abraxius_lattice.Editor.Document as Methods
use abraxius_lattice.Editor.Document.{
  apply_transaction, commit, insert_text, delete_backward, delete_forward, edit, undo, redo,
  undo_entry, redo_entry,
}
use abraxius_lattice.Editor.Document.History.{IsValid}
use abraxius_lattice.Editor.Document.Undo.{undo-apply_transaction, redo-undo}
use abraxius_lattice.Editor.Document.Edit.{Edited}
use abraxius_lattice.Editor.Document.Commands.{
  insert_text-Edited, delete_backward-caret, delete_forward-caret,
}
use abraxius_lattice.Editor.Document.Atomic.{
  apply_transaction-one_atomic, apply_transaction-partial,
}
use abraxius_lattice.Editor.Document.Keeps.{insert_text-IsValid, move_caret-ok}
use abraxius_lattice.Editor.Document.Session.{
  Command, AllFitting, run, undo_times, run-IsValid, undo_times-run,
}
use abraxius_lattice.Editor.View.{new, selected_text, viewport, hash_rope}
use abraxius_lattice.Editor.View.Laws.{
  hash_rope-chars, new-IsValid, selected_text-splits, viewport_window, LinesFrom,
}
use abraxius_lattice.Editor.Sample.{list_rope, list_rope-laws, list_hasher, list_hasher-laws}

-- Names what a test has to compute with.
methods : Unit {0}
unfolding run new caret start end insert_text delete_backward delete_forward Methods.move_caret
    Methods.caret_target Methods.line_of Methods.char_before Methods.char_after edit replace undo
    undo_entry undo_edits redo redo_entry redo_edits replace_bytes apply_transaction
    apply_operations apply_operation ensure_boundary sort_by_start byte_len len_utf8 char_of_byte
    saturating_add
methods = tt

abbrev opened : Text → Document Text
opened source = new list_rope list_hasher 7 source false

abbrev swap_words : EditTransaction
swap_words = record {
  base_revision = 0;
  operations = (record { start_byte = 6; end_byte = 10; inserted = codes "gamma" }) ∷ [];
  before_selection = record { anchor = 0; head = 0 };
  after_selection = record { anchor = 1; head = 1 };
}

abbrev alpha : Document Text
alpha = opened (codes "alpha beta ")

apply_transaction-gamma :
    (apply_transaction list_rope swap_words alpha).1.rope ≡ codes "alpha gamma "
unfolding methods
apply_transaction-gamma = refl

alpha-IsValid : IsValid list_rope (codes "alpha beta ") alpha
alpha-IsValid = new-IsValid list_rope-laws list_hasher-laws 7 (codes "alpha beta ") false

-- The transaction succeeds, so undo gives back the text.
swap_words-ok :
    apply_transaction list_rope swap_words alpha
    ≡ (ok tt, (apply_transaction list_rope swap_words alpha).1)
unfolding methods
swap_words-ok = refl

undo-apply_transaction_example :
    (d : Document Text) × (undo list_rope (apply_transaction list_rope swap_words alpha).1
      ≡ (ok tt, d))
    × (d.rope ≡ alpha.rope)
    × (d.selection ≡ swap_words.before_selection)
    × (d.undo ≡ alpha.undo)
undo-apply_transaction_example =
    undo-apply_transaction list_rope-laws swap_words alpha (λ e. cc) swap_words-ok

-- A cafe with an accent and a smile: characters of one, two and four bytes.
abbrev cafe : Document Text
cafe = opened (0x1f642 ∷ 0x20 ∷ 0x63 ∷ 0xe9 ∷ [])

cafe-IsValid : IsValid list_rope (0x1f642 ∷ 0x20 ∷ 0x63 ∷ 0xe9 ∷ []) cafe
cafe-IsValid =
    new-IsValid list_rope-laws list_hasher-laws 7 (0x1f642 ∷ 0x20 ∷ 0x63 ∷ 0xe9 ∷ []) false

-- The transaction succeeds, is undone and redone, and is refused when it comes again.
abbrev typing : List Command
typing =
    Command.transact swap_words
    ∷ Command.undo
    ∷ Command.redo
    ∷ Command.transact swap_words
    ∷ Command.insert_text (codes "ab")
    ∷ Command.delete_backward
    ∷ Command.move_caret home
    ∷ Command.delete_forward
    ∷ []

before_words : IsBoundary (codes "alpha beta ") 0
unfolding methods
before_words = record { before = []; after = codes "alpha beta "; splits = refl; at = refl }

behind_letter : IsBoundary (codes "alpha gamma ") 1
unfolding methods
behind_letter = record { before = codes "a"; after = codes "lpha gamma "; splits = refl; at = refl }

typing-AllFitting : AllFitting list_rope typing alpha
unfolding methods
typing-AllFitting = (
  (
    record { at_anchor = before_words; at_head = before_words },
    record { at_anchor = behind_letter; at_head = behind_letter },
  ),
  (tt, (tt, (refl, (tt, (tt, (tt, (tt, tt))))))),
)

run-IsValid_example : IsValid list_rope (codes "alpha beta ") (run list_rope typing alpha)
run-IsValid_example = run-IsValid list_rope-laws typing alpha alpha-IsValid typing-AllFitting

typing-writable : (run list_rope typing alpha).is_read_only ≡ false
unfolding methods
typing-writable = refl

undo_times-run_example :
    (undo_times list_rope
      (length (run list_rope typing alpha).undo)
      (run list_rope typing alpha)).rope
    ≡ codes "alpha beta "
undo_times-run_example =
    undo_times-run list_rope-laws typing alpha alpha-IsValid typing-AllFitting typing-writable

abbrev typed : Document Text
typed = (insert_text list_rope (codes "ab") cafe).1

insert_text-Edited_example :
    (d : Document Text) × (insert_text list_rope (codes "ab") cafe ≡ (ok tt, d))
    × Edited list_rope-laws (start cafe.selection) (end cafe.selection) (codes "ab") cafe d
    × IsValid list_rope (0x1f642 ∷ 0x20 ∷ 0x63 ∷ 0xe9 ∷ []) d
unfolding new
insert_text-Edited_example = insert_text-Edited list_rope-laws (codes "ab") cafe cafe-IsValid refl

typed-ok : undo list_rope typed ≡ (ok tt, (undo list_rope typed).1)
unfolding methods
typed-ok = refl

redo-undo_example :
    (d : Document Text) × (redo list_rope (undo list_rope typed).1 ≡ (ok tt, d))
    × (d.rope ≡ typed.rope)
    × (d.undo ≡ typed.undo)
    × (d.redo ≡ typed.redo)
redo-undo_example =
    redo-undo list_rope-laws typed
      (insert_text-IsValid list_rope-laws (codes "ab") cafe cafe-IsValid) typed-ok

-- The caret behind the accented letter, and before it.
abbrev at_end : Document Text
at_end = record cafe { selection = record { anchor = 8; head = 8 } }

abbrev before_last : Document Text
before_last = record cafe { selection = record { anchor = 6; head = 6 } }

delete_backward-caret_example :
    (d : Document Text) × (delete_backward list_rope at_end ≡ (ok tt, d))
    × (d.rope ≡ 0x1f642 ∷ 0x20 ∷ 0x63 ∷ [])
    × (d.selection ≡ caret (byte_len (0x1f642 ∷ 0x20 ∷ 0x63 ∷ [])))
    × IsValid list_rope (0x1f642 ∷ 0x20 ∷ 0x63 ∷ 0xe9 ∷ []) d
unfolding methods
delete_backward-caret_example =
    delete_backward-caret list_rope-laws (0x1f642 ∷ 0x20 ∷ 0x63 ∷ []) [] 0xe9 at_end
      (record {
        back = cafe-IsValid.back;
        forth = tt;
        placed = record { at_anchor = last_boundary; at_head = last_boundary };
      })
      refl refl refl
  where
    last_boundary : IsBoundary (0x1f642 ∷ 0x20 ∷ 0x63 ∷ 0xe9 ∷ []) 8
    last_boundary = record {
      before = 0x1f642 ∷ 0x20 ∷ 0x63 ∷ 0xe9 ∷ [];
      after = [];
      splits = refl;
      at = refl;
    }

delete_forward-caret_example :
    (d : Document Text) × (delete_forward list_rope before_last ≡ (ok tt, d))
    × (d.rope ≡ 0x1f642 ∷ 0x20 ∷ 0x63 ∷ [])
    × (d.selection ≡ caret (byte_len (0x1f642 ∷ 0x20 ∷ 0x63 ∷ [])))
    × IsValid list_rope (0x1f642 ∷ 0x20 ∷ 0x63 ∷ 0xe9 ∷ []) d
unfolding methods
delete_forward-caret_example =
    delete_forward-caret list_rope-laws (0x1f642 ∷ 0x20 ∷ 0x63 ∷ []) [] 0xe9 before_last
      (record {
        back = cafe-IsValid.back;
        forth = tt;
        placed = record { at_anchor = the_boundary; at_head = the_boundary };
      })
      refl refl refl
  where
    the_boundary : IsBoundary (0x1f642 ∷ 0x20 ∷ 0x63 ∷ 0xe9 ∷ []) 6
    the_boundary = record {
      before = 0x1f642 ∷ 0x20 ∷ 0x63 ∷ [];
      after = 0xe9 ∷ [];
      splits = refl;
      at = refl;
    }

move_caret-ok_example :
    (b : ℕ) × (Methods.move_caret list_rope right cafe
      ≡ (ok tt, record cafe { selection = caret b }))
    × IsBoundary cafe.rope b
move_caret-ok_example = move_caret-ok list_rope-laws right cafe cafe-IsValid

-- An offset inside the smile is refused, and the document is as it was.
abbrev inside : EditTransaction
inside = record swap_words {
  operations = (record { start_byte = 1; end_byte = 1; inserted = codes "x" }) ∷ [];
}

inside-refused : apply_transaction list_rope inside cafe ≡ (err (invalid_utf8_boundary 1), cafe)
unfolding methods
inside-refused = refl

apply_transaction-one_atomic_example : cafe ≡ cafe
apply_transaction-one_atomic_example =
    apply_transaction-one_atomic list_rope-laws inside
      (record { start_byte = 1; end_byte = 1; inserted = codes "x" }) cafe refl inside-refused

-- A transaction that replaces a word, and then names a reversed range.
abbrev reversed : EditTransaction
reversed = record swap_words {
  operations =
      (record { start_byte = 6; end_byte = 10; inserted = codes "gamma" })
      ∷ (record { start_byte = 3; end_byte = 1; inserted = [] })
      ∷ [];
}

apply_transaction-partial_example :
    (e : EditorError) × (d : Document Text) × (apply_transaction list_rope reversed alpha
      ≡ (err e, d))
    × (d.rope ≡ codes "alpha gamma ")
    × (d.revision ≡ alpha.revision)
    × (d.cached_content_hash ≡ alpha.cached_content_hash)
    × (d.undo ≡ alpha.undo)
unfolding methods
apply_transaction-partial_example =
    apply_transaction-partial list_rope-laws reversed
      (record { start_byte = 6; end_byte = 10; inserted = codes "gamma" })
      (record { start_byte = 3; end_byte = 1; inserted = [] }) alpha refl refl refl
      (record {
        before = codes "alpha ";
        deleted = codes "beta";
        after = codes " ";
        splits = refl;
        start_at = refl;
        end_at = refl;
        within = omega arith;
      })
      (omega arith) (omega arith)

hash_rope-chars_example : hash_rope list_rope list_hasher (codes "ab") ≡ [] ++ as_bytes (codes "ab")
hash_rope-chars_example = hash_rope-chars list_rope-laws list_hasher-laws (codes "ab")

viewport_window_example :
    let v = viewport list_rope (λ digest. digest) 5 2 cafe in
    (v.first_line ≤ v.last_line)
    × (v.last_line < v.total_lines)
    × LinesFrom list_rope-laws cafe.rope v.first_line v.lines
    × (length v.lines ≡ v.last_line + 1 - v.first_line)
viewport_window_example = viewport_window list_rope-laws (λ digest. digest) 5 2 cafe

selected_text-splits_example :
    (p q : Text) × (cafe.rope ≡ p ++ (selected_text list_rope cafe ++ q))
    × (start cafe.selection ≡ byte_len p)
    × (end cafe.selection ≡ byte_len p + byte_len (selected_text list_rope cafe))
selected_text-splits_example = selected_text-splits list_rope-laws cafe cafe-IsValid
