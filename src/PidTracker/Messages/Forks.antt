-- ===== src/PidTracker/Messages/Forks.antt =====
-- systemd/main.go, `pidtrack`: the messages of processes that fork.
use docker_systemd.Base.{
  ℕ, ◌≡◌, ◌≤◌, ◌↔◌, ◌⊎◌, refl, sym, subst, ◌==◌, false, ◌∷◌, ◌++◌, Bytes, All, Option, some, length,
  take_all,
}
use docker_systemd.Text.Laws.{split_whole, split_piece}
use docker_systemd.PidTracker.{Relations, add}
use docker_systemd.PidTracker.Gathers.{Child}
use docker_systemd.PidTracker.Added.{Reported, Child-add}
use docker_systemd.PidTracker.Messages.{track_message}

abbrev pub IsField : Bytes → Type 0
IsField text = All (λ c. (c == b':') ≡ false) text

module _ (atoi : Bytes → Option (Option ℕ)) where
  track_message-add :
      (p c i : Bytes) (parent child infant : Option ℕ) (rel : Relations)
      → IsField p
      → IsField c
      → IsField i
      → length (p ++ (b':' ∷ (c ++ (b':' ∷ i)))) ≤ 65536
      → atoi p ≡ some parent
      → atoi c ≡ some child
      → atoi i ≡ some infant
      → track_message atoi (p ++ (b':' ∷ (c ++ (b':' ∷ i)))) rel ≡ add parent child infant rel
  unfolding track_message
  track_message-add p c i parent child infant rel pp pc pi short np nc ni =
      rw
        (
          take_all 65536 (p ++ (b':' ∷ (c ++ (b':' ∷ i)))) short,
          split_piece p (c ++ (b':' ∷ i)) b':' pp,
          split_piece c i b':' pc,
          split_whole i b':' pi,
          ni,
          nc,
          np,
        )
        refl

  -- A message with the numbers of three processes that fits into the buffer, and of which none has a
  -- colon in its text, makes the first the parent of the second and the second the parent of the
  -- third, where the number is not -1, and keeps all that was known; nothing is added when the second
  -- is -1.
  pub track_message-Child :
      (p c i : Bytes) (parent child infant : Option ℕ) (rel : Relations) (pid d : ℕ)
      → IsField p
      → IsField c
      → IsField i
      → length (p ++ (b':' ∷ (c ++ (b':' ∷ i)))) ≤ 65536
      → atoi p ≡ some parent
      → atoi c ≡ some child
      → atoi i ≡ some infant
      → Child (track_message atoi (p ++ (b':' ∷ (c ++ (b':' ∷ i)))) rel) pid d
        ↔ (Child rel pid d ⊎ (Reported parent child pid d ⊎ Reported child infant pid d))
  track_message-Child p c i parent child infant rel pid d pp pc pi short np nc ni =
      subst
        (λ r.
          Child r pid d
          ↔ (Child rel pid d ⊎ (Reported parent child pid d ⊎ Reported child infant pid d)))
        (sym (track_message-add p c i parent child infant rel pp pc pi short np nc ni))
        (Child-add rel parent child infant pid d)
