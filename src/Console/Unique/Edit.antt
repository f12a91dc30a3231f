-- ===== src/Console/Unique/Edit.antt =====
-- crates/management-ui/src/console_accounts.rs: a row that is changed or added stays unique.
use surmount_server.Assoc.{is_some}
use surmount_server.Console.{
  ConsoleAccountEntry, edit_row, find, has_key, has_mailbox, is_some_of, mailbox_normalized,
  npub_normalized,
}
use surmount_server.Console.Unique.{
  absent, absent-nil, absent-none, elsewhere, find-both, is_some_of-eq, missed, no_key, pass,
  split_three, unique_rows,
}
use surmount_server.Net.{ip_eq}
use surmount_server.Prelude.{
  Bool, Bool-cases, List, Option, Option-cases, [], ap, arith, false, inl, inr, list_beq_iff,
  list_eq, nat_eq, none, not, refl, some, sym, true, ◌==◌, ◌∙◌, ◌∷◌, ◌≡◌,
}
use surmount_server.Text.{Text}

module _ (m : Text) (change : ConsoleAccountEntry → ConsoleAccountEntry)
    (added : ConsoleAccountEntry) where
  -- A test that no row meets is met by none afterwards, where the changed rows do not meet it.
  find-edit_row :
      (q : ConsoleAccountEntry → Bool) (es : List ConsoleAccountEntry)
      → ((e : ConsoleAccountEntry) → has_mailbox m e ≡ true → q e ≡ false → q (change e) ≡ false)
      → q added ≡ false
      → find q es ≡ none
      → find q (edit_row m change added es) ≡ none
  unfolding edit_row
  find-edit_row q [] kept free h = rw free refl
  find-edit_row q (e ∷ es) kept free h =
      let (unmet, rest) = missed (q e) e (find q es) h in
      elim (Bool-cases (has_mailbox m e)) [
        | inl hit ↦ rw (hit, kept e hit unmet) rest
        | inr miss ↦ rw (miss, unmet) (find-edit_row q es kept free rest)
      ]

  other_box :
      (a : Text) (e : ConsoleAccountEntry)
      → mailbox_normalized e ≡ some a
      → has_mailbox m e ≡ false
      → m == a ≡ false
  other_box a e box miss = ground (arith, list_beq_iff m a, list_beq_iff a m)

  -- if the row of the mailbox may take a key, then no row after it has that key
  room_for :
      (hex : Text) (e : ConsoleAccountEntry) (es : List ConsoleAccountEntry)
      → elsewhere m (some hex) (e ∷ es) ≡ false
      → absent has_key (npub_normalized e) es ≡ true
      → find (has_mailbox m) es ≡ none
      → not (is_some (find (has_key hex) es)) ≡ true
  room_for hex e es h own free = elim (Bool-cases (has_key hex e)) [
    | inl hit ↦
        ap (λ (o : Option Text). absent has_key o es)
          (sym (is_some_of-eq (npub_normalized e) hex hit))
        ∙ own
    | inr miss ↦ elim (Option-cases (find (has_key hex) es)) [
      | inl nowhere ↦ rw nowhere refl
      | inr (x, there) ↦
          absurd
            (find-both (has_key hex) (has_mailbox m) es there (ground (arith, miss, there, h)) free)
    ]
  ]

  module _ (k : Option Text)
      (placed : (e : ConsoleAccountEntry) → mailbox_normalized (change e) ≡ some m)
      (keyed : (e : ConsoleAccountEntry) → npub_normalized (change e) ≡ k)
      (new_placed : mailbox_normalized added ≡ some m) (new_keyed : npub_normalized added ≡ k) where
    other_key :
        (j : Text) (e : ConsoleAccountEntry) (es : List ConsoleAccountEntry)
        → npub_normalized e ≡ some j
        → has_mailbox m e ≡ false
        → elsewhere m k (e ∷ es) ≡ false
        → is_some_of k j ≡ false
    other_key j e es key miss h = elim (Option-cases k) [
      | inl none_k ↦ rw none_k refl
      | inr (hex, some_k) ↦ rw some_k (
          ground (
            arith,
            list_beq_iff hex j,
            list_beq_iff j hex,
            no_key m hex e es,
            key,
            ap (λ (o : Option Text). elsewhere m o (e ∷ es)) (sym some_k) ∙ h,
          ))
    ]

    later :
        (e : ConsoleAccountEntry) (es : List ConsoleAccountEntry)
        → has_mailbox m e ≡ false
        → elsewhere m k (e ∷ es) ≡ false
        → elsewhere m k es ≡ false
    later e es miss h = elim (Option-cases k) [
      | inl none_k ↦ rw none_k refl
      | inr (hex, some_k) ↦
          rw some_k (
            pass m hex e es miss
              (ap (λ (o : Option Text). elsewhere m o (e ∷ es)) (sym some_k) ∙ h))
    ]

    key_kept :
        (e : ConsoleAccountEntry) (es : List ConsoleAccountEntry)
        → has_mailbox m e ≡ false
        → elsewhere m k (e ∷ es) ≡ false
        → absent has_key (npub_normalized e) es ≡ true
        → absent has_key (npub_normalized e) (edit_row m change added es) ≡ true
    key_kept e es miss h own = elim (Option-cases (npub_normalized e)) [
      | inl none_key ↦ rw none_key refl
      | inr (j, key) ↦
          rw
            (
              key,
              find-edit_row (has_key j) es
                  (λ d hit free. rw (keyed d) (other_key j e es key miss h))
                  (rw new_keyed (other_key j e es key miss h))
                  (absent-none _ (ap (λ o. absent has_key o es) (sym key) ∙ own)),
            )
            refl
    ]

    box_kept :
        (e : ConsoleAccountEntry) (es : List ConsoleAccountEntry)
        → has_mailbox m e ≡ false
        → absent has_mailbox (mailbox_normalized e) es ≡ true
        → absent has_mailbox (mailbox_normalized e) (edit_row m change added es) ≡ true
    box_kept e es miss own = elim (Option-cases (mailbox_normalized e)) [
      | inl none_box ↦ rw none_box refl
      | inr (a, box) ↦
          rw
            (
              box,
              find-edit_row (has_mailbox a) es
                  (λ d hit free. rw (placed d) (other_box a e box miss))
                  (rw new_placed (other_box a e box miss))
                  (absent-none _ (ap (λ o. absent has_mailbox o es) (sym box) ∙ own)),
            )
            refl
    ]

    key_room :
        (e : ConsoleAccountEntry) (es : List ConsoleAccountEntry)
        → has_mailbox m e ≡ true
        → elsewhere m k (e ∷ es) ≡ false
        → absent has_key (npub_normalized e) es ≡ true
        → absent has_mailbox (some m) es ≡ true
        → absent has_key k es ≡ true
    key_room e es hit h own free = elim (Option-cases k) [
      | inl none_k ↦ rw none_k refl
      | inr (hex, some_k) ↦ rw some_k (
          room_for hex e es (ap (λ (o : Option Text). elsewhere m o (e ∷ es)) (sym some_k) ∙ h) own
            (absent-none _ free))
    ]

    pub unique_rows-edit_row :
        (es : List ConsoleAccountEntry)
        → elsewhere m k es ≡ false
        → unique_rows es ≡ true
        → unique_rows (edit_row m change added es) ≡ true
    unfolding edit_row unique_rows
    unique_rows-edit_row [] h u = rw (new_keyed, new_placed) (rw (absent-nil k) refl)
    unique_rows-edit_row (e ∷ es) h u =
        let (own_key, own_box, rest) =
          split_three (absent has_key (npub_normalized e) es)
            (absent has_mailbox (mailbox_normalized e) es) (unique_rows es) u in
        elim (Bool-cases (has_mailbox m e)) [
          | inl hit ↦
              rw
                (
                  hit,
                  keyed e,
                  placed e,
                  key_room e es hit h own_key (
                      ap (λ (o : Option Text). absent has_mailbox o es)
                        (sym (is_some_of-eq (mailbox_normalized e) m hit))
                      ∙ own_box),
                  ap (λ (o : Option Text). absent has_mailbox o es)
                        (sym (is_some_of-eq (mailbox_normalized e) m hit))
                      ∙ own_box,
                  rest,
                )
                refl
          | inr miss ↦
              rw
                (
                  miss,
                  key_kept e es miss h own_key,
                  box_kept e es miss own_box,
                  unique_rows-edit_row es (later e es miss h) rest,
                )
                refl
        ]

  module _
      (same_box : (e : ConsoleAccountEntry) → mailbox_normalized (change e) ≡ mailbox_normalized e)
      (same_key : (e : ConsoleAccountEntry) → npub_normalized (change e) ≡ npub_normalized e)
      (new_box : mailbox_normalized added ≡ some m)
      (no_new_key : npub_normalized added ≡ none) where
    same_key_kept :
        (e : ConsoleAccountEntry) (es : List ConsoleAccountEntry)
        → absent has_key (npub_normalized e) es ≡ true
        → absent has_key (npub_normalized e) (edit_row m change added es) ≡ true
    same_key_kept e es own = elim (Option-cases (npub_normalized e)) [
      | inl none_key ↦ rw none_key refl
      | inr (j, key) ↦
          rw
            (
              key,
              find-edit_row (has_key j) es (λ d hit free. rw (same_key d) free) (rw no_new_key refl)
                  (absent-none _ (ap (λ o. absent has_key o es) (sym key) ∙ own)),
            )
            refl
    ]

    same_box_kept :
        (e : ConsoleAccountEntry) (es : List ConsoleAccountEntry)
        → has_mailbox m e ≡ false
        → absent has_mailbox (mailbox_normalized e) es ≡ true
        → absent has_mailbox (mailbox_normalized e) (edit_row m change added es) ≡ true
    same_box_kept e es miss own = elim (Option-cases (mailbox_normalized e)) [
      | inl none_box ↦ rw none_box refl
      | inr (a, box) ↦
          rw
            (
              box,
              find-edit_row (has_mailbox a) es (λ d hit free. rw (same_box d) free)
                  (rw new_box (other_box a e box miss))
                  (absent-none _ (ap (λ o. absent has_mailbox o es) (sym box) ∙ own)),
            )
            refl
    ]

    pub unique_rows-mark :
        (es : List ConsoleAccountEntry)
        → unique_rows es ≡ true
        → unique_rows (edit_row m change added es) ≡ true
    unfolding edit_row unique_rows
    unique_rows-mark [] u = rw (no_new_key, new_box) refl
    unique_rows-mark (e ∷ es) u =
        let (own_key, own_box, rest) =
          split_three (absent has_key (npub_normalized e) es)
            (absent has_mailbox (mailbox_normalized e) es) (unique_rows es) u in
        elim (Bool-cases (has_mailbox m e)) [
          | inl hit ↦ rw (hit, same_key e, same_box e) u
          | inr miss ↦
              rw
                (
                  miss,
                  same_key_kept e es own_key,
                  same_box_kept e es miss own_box,
                  unique_rows-mark es rest,
                )
                refl
        ]
