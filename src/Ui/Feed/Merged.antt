-- ===== src/Ui/Feed/Merged.antt =====
-- What a history that frontend/src/hooks/usePulseChat.ts merges leaves for a feed to show.
use pulse_chat.Base.{
  ◌≡◌, refl, ap, sym, ◌∙◌, List, [], ◌∷◌, ◌++◌, Bool, true, false, not, any, map, filter,
  filter-append, append_assoc, map-append,
}
use pulse_chat.Text.{Text, text_eq}
use pulse_chat.Db.{DbMessage}
use pulse_chat.Client.{ChatMessage}
use pulse_chat.Client.Messages.{merge_by}

module _ (key : ChatMessage → Text) where
  -- What a merge leaves behind the messages that were there ends with the last that is new.
  merge_by-last :
      (older prev : List ChatMessage) (m : ChatMessage)
      → any (λ p. text_eq (key p) (key m)) prev ≡ false
      → merge_by key (older ++ m ∷ []) prev ≡ merge_by key older prev ++ m ∷ []
  unfolding merge_by
  merge_by-last older prev m new =
      ap (λ ms. prev ++ ms)
        (filter-append (λ l. not (any (λ p. text_eq (key p) (key l)) prev)) older (m ∷ [])
          ∙ rw new refl)
      ∙ sym (append_assoc prev _ (m ∷ []))

  -- The last message of a history is the last that a feed shows, if it is new and belongs there.
  pub filter_merge-last :
      (load : DbMessage → ChatMessage) (is_shown : ChatMessage → Bool) (older : List DbMessage)
      (m : DbMessage) (prev : List ChatMessage)
      → any (λ p. text_eq (key p) (key (load m))) prev ≡ false
      → is_shown (load m) ≡ true
      → (shown : List ChatMessage) × (filter is_shown
            (merge_by key (map load (older ++ m ∷ [])) prev)
          ≡ shown ++ load m ∷ [])
  filter_merge-last load is_shown older m prev new fits =
      let merged = merge_by key (map load older) prev in
      (
        filter is_shown merged,
        ap (λ ms. filter is_shown (merge_by key ms prev)) (map-append load older (m ∷ []))
            ∙ ap (filter is_shown) (merge_by-last (map load older) prev (load m) new)
            ∙ filter-append is_shown merged (load m ∷ [])
            ∙ ap (λ ms. filter is_shown merged ++ ms) (rw fits refl),
      )
