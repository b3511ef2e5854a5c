-- ===== src/Services.antt =====
-- The smaller programs of src/python/beeflow: the parsing of DAGs, the download of DAGs, the
-- configuration, the batch worker, the webserver and the migrations.
pub mod Parsing
pub mod Configuration
pub mod Downloads
pub mod BatchWorker
pub mod Webserver
pub mod Migrations
