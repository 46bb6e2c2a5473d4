-- ===== src/Page/Flags.antt =====
-- What the accessors of page.h read and write, for the three flags that the kernel stores.
use risky.Base.{◌≡◌, true, false}
use risky.Page.{
  Page, flag_free, flag_reserved, flag_used, page_free, page_reserved, page_used, set_page_used,
  clear_page_free,
}

module _ (page : Page) where
  pub flags_of_free :
      page.flags ≡ flag_free
      → (page_free page ≡ true) × (page_used page ≡ false) × (page_reserved page ≡ false)
  unfolding page_free page_used page_reserved
  flags_of_free e = (rw e, rw e, rw e)

  pub flags_of_used :
      page.flags ≡ flag_used
      → (page_free page ≡ false) × (page_used page ≡ true) × (page_reserved page ≡ false)
  unfolding page_free page_used page_reserved
  flags_of_used e = (rw e, rw e, rw e)

  pub flags_of_reserved :
      page.flags ≡ flag_reserved
      → (page_free page ≡ false) × (page_used page ≡ false) × (page_reserved page ≡ true)
  unfolding page_free page_used page_reserved
  flags_of_reserved e = (rw e, rw e, rw e)

  -- `pmm_init` turns a free page into a used one by these two calls.
  pub retire_flags :
      page.flags ≡ flag_free
      → clear_page_free (set_page_used page) ≡ record page { flags = flag_used }
  unfolding clear_page_free set_page_used
  retire_flags e = rw e
