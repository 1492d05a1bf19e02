-- ===== src/Pmap/Shared.antt =====
-- How na/mm/vma.cc changes the permissions of a page that a fork has marked copy-on-write in the tables of
-- na/arch/riscv/mm/pmap.cc.
use lume.Common.{ℕ, Bool, bit_or}
use lume.Vma.{vm_user}
use lume.Vma.Protect.{protect_page}
use lume.Pmap.Shape.{Owner, leaf}
use lume.Pmap.Pages.{Backed, pmap_pages}
use lume.Pmap.Protects.{bit_of, pmap_protection}

module _ (root_pa : ℕ) (own : ℕ → Owner) where
  -- The step of `vmm_protect_user` for the page at an address, with the new permissions.
  abbrev pub protected : ℕ → Backed root_pa own → ℕ → Backed root_pa own
  protected perm t va =
      (protect_page (pmap_pages root_pa own) (pmap_protection root_pa own) perm
        (bit_or perm vm_user) t va).1

  -- The bit of the page's entry.
  abbrev pub entry_bit : Backed root_pa own → ℕ → ℕ → Bool
  entry_bit t va mask = bit_of mask (leaf t.0.0 root_pa va)
