-- ===== src/Database/Tests.antt =====
-- The theorems on the database at a hall with two movies, and runs of the functions.
use so.Database.BoxOffice
use so.Base.{List, [], arith, none, refl, some, true, ℕ, ◌↔◌, ◌∷◌, ◌≡◌, ◌≢◌, ◌⊎◌}
use so.Base.Int.{ltb_ℤ, pos, ℤ}
use so.Database.Buying.{
  db_buy_ticket-refines, db_buy_ticket_fresh, db_buy_ticket_keeps_lock, db_get_ticket_lasts,
}
use so.Database.Layout.{db_open, movie_init, put_movies}
use so.Database.Owner.{db_get_ticket-IsSold}
use so.Database.Sales.{sales}
use so.Database.Samples.{
  after_sale, after_sale-IsValid, alien, gravity, hall, hall-IsValid, sells_21,
}
use so.Database.Sized.{db_open-IsValid}
use so.Database.Tickets.{
  db_buy_ticket, db_find, db_get_ticket, db_lock, db_rlock, db_unlock, db_wlock, find_from,
  scan_movies, scan_tickets,
}
use so.Database.Types.{Database, err_no_such_movie, f_unlck, f_wrlck}
use so.Database.Valid.{IsValid}
use so.Database.ZeroTicket.{zero_is_found}
use so.Libc.{c_string, same_string, strncpy}

finds_21 : (db_get_ticket after_sale (pos 21)).0 ≡ some 1
unfolding db_get_ticket db_rlock db_unlock db_lock scan_movies scan_tickets movie_init
finds_21 = refl

finds_alien : db_find hall (b'A' ∷ []) ≡ some 1
unfolding db_find find_from c_string same_string movie_init strncpy
finds_alien = refl

refuses_movie_2 :
    db_buy_ticket hall (pos 2) ≡ some (err_no_such_movie, record hall { held = f_wrlck })
unfolding db_buy_ticket db_wlock db_lock
refuses_movie_2 = refl

db_buy_ticket-refines_example :
    (r : ℤ × Database) × (db_buy_ticket hall (pos 1) ≡ some r)
    × ((r.0, sales r.1) ≡ BoxOffice.buy (sales hall) (pos 1))
    × IsValid r.1
db_buy_ticket-refines_example = db_buy_ticket-refines hall (pos 1) hall-IsValid

db_get_ticket-IsSold_example :
    ((i : ℕ)
      → ((db_get_ticket after_sale (pos 21)).0 ≡ some i)
        ↔ BoxOffice.IsSold (sales after_sale) (pos 21) i)
    × ((db_get_ticket after_sale (pos 21)).1 ≡ record after_sale { held = f_unlck })
db_get_ticket-IsSold_example =
    db_get_ticket-IsSold after_sale (pos 21) after_sale-IsValid (λ e. ground (arith, e))

db_buy_ticket_fresh_example :
    ((db_get_ticket hall (pos 21)).0 ≡ none)
    × (j : ℕ) × (pos 1 ≡ pos j)
    × ((db_get_ticket after_sale (pos 21)).0 ≡ some j)
db_buy_ticket_fresh_example = db_buy_ticket_fresh hall (pos 1) hall-IsValid sells_21 refl

db_get_ticket_lasts_example :
    (db_get_ticket (record after_sale { held = f_wrlck }) (pos 21)).0 ≡ some 1
db_get_ticket_lasts_example =
    db_get_ticket_lasts after_sale (pos 2) 20 1 after_sale-IsValid refused finds_21
  where
    refused :
        db_buy_ticket after_sale (pos 2)
        ≡ some (err_no_such_movie, record after_sale { held = f_wrlck })
    refused = unfold db_buy_ticket db_wlock db_lock in refl

db_buy_ticket_keeps_lock_example :
    ((ltb_ℤ (pos 0) err_no_such_movie ≡ true) × (f_wrlck ≡ f_unlck))
    ⊎ ((ltb_ℤ err_no_such_movie (pos 0) ≡ true)
        × (record hall { held = f_wrlck } ≡ record hall { held = f_wrlck }))
db_buy_ticket_keeps_lock_example =
    db_buy_ticket_keeps_lock hall (pos 2) hall-IsValid refuses_movie_2

zero_is_found_example : (db_get_ticket hall (pos 0)).0 ≢ none
unfolding movie_init
zero_is_found_example = zero_is_found hall 1 alien hall-IsValid refl (omega arith)

abbrev padding : List ℕ
padding = 7 ∷ 9 ∷ []

db_open-IsValid_example : db_open (put_movies padding (gravity ∷ alien ∷ [])) ≡ some hall
db_open-IsValid_example = db_open-IsValid padding hall refl hall-IsValid
