-- ===== src/Claims/Tests.antt =====
-- The theorems on default names at concrete tables.
use sshark_api.Base.{[], ◌∷◌, ◌++◌, ◌≡◌, refl, arith, sym, ◌∙◌}
use sshark_api.Base.Text.{codes, equal_fold, len, trim_space}
use sshark_api.Store.{err, no_free_username}
use sshark_api.Username.{valid, username_invalid, validate_username, is_alnum}
use sshark_api.Tables.Profiles
use sshark_api.Claims.{pick_default_username, clerk_prefix, numbered}
use sshark_api.Claims.Default.{IsFree, pick_default_username-IsFree, pick_default_username_long}
use sshark_api.Identity.{Account}
use sshark_api.Samples.{world, profile, ada_account}

pick_default_username-IsFree_example :
    (validate_username (codes "ada-2") ≡ valid)
    × IsFree (codes "user_2") (codes "ada-2") (profile ∷ [])
unfolding trim_space numbered
pick_default_username-IsFree_example =
    pick_default_username-IsFree (codes "user_2") (ada_account ∷ []) (codes "ada-2") (world []) (
      unfold pick_default_username Profiles.is_username_available validate_username equal_fold in
      refl)

-- An account whose name is too short.
abbrev short_account : Account
short_account = record ada_account { username = codes "a" }

short_refused : validate_username short_account.username ≡ username_invalid
unfolding validate_username trim_space len
short_refused = refl

pick_default_username_long_example :
    pick_default_username
      (clerk_prefix ++ codes "abcdefghijabcdefghijabcdefghijabcde")
      (short_account ∷ [])
      (world [])
    ≡ (err no_free_username, world [])
pick_default_username_long_example =
    pick_default_username_long (codes "abcdefghijabcdefghijabcdefghijabcde") (short_account ∷ [])
      (world [])
      (unfold is_alnum in
        (
          refl,
          (
            refl,
            (
              refl,
              (
                refl,
                (
                  refl,
                  (
                    refl,
                    (
                      refl,
                      (
                        refl,
                        (
                          refl,
                          (
                            refl,
                            (
                              refl,
                              (
                                refl,
                                (
                                  refl,
                                  (
                                    refl,
                                    (
                                      refl,
                                      (
                                        refl,
                                        (
                                          refl,
                                          (
                                            refl,
                                            (
                                              refl,
                                              (
                                                refl,
                                                (
                                                  refl,
                                                  (
                                                    refl,
                                                    (
                                                      refl,
                                                      (
                                                        refl,
                                                        (
                                                          refl,
                                                          (
                                                            refl,
                                                            (
                                                            refl,
                                                            (
                                                            refl,
                                                            (
                                                            refl,
                                                            (
                                                            refl,
                                                            (
                                                            refl,
                                                            (refl, (refl, (refl, (refl, tt)))),
                                                            ),
                                                            ),
                                                            ),
                                                            ),
                                                            ),
                                                          ),
                                                        ),
                                                      ),
                                                    ),
                                                  ),
                                                ),
                                              ),
                                            ),
                                          ),
                                        ),
                                      ),
                                    ),
                                  ),
                                ),
                              ),
                            ),
                          ),
                        ),
                      ),
                    ),
                  ),
                ),
              ),
            ),
          ),
        ))
      (omega arith)
      ((λ same. let this : username_invalid ≡ valid = sym short_refused ∙ same in absurd (cc)), tt)
